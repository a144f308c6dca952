-- ===== src/Keyboard/Queue.antt =====
-- kernel/kb.c: the keys that are typed while `get_key` waits are returned in order.
use thunix.Base.{
  ℕ, zero, suc, ◌+◌, ◌%◌, ◌≤◌, ◌<◌, bit_and, ◌≡◌, refl, sym, ap, ◌∙◌, ◌≢◌, inl, inr, true, false,
  ◌||◌, not, Option, none, some, List, [], ◌∷◌, ◌++◌, arith, ◌==◌, if◌then◌else◌, Bool-cases,
  length, length-append, Memory, store, store_self, store_ne,
}
use thunix.Base.Int.{◌-ℤ◌, pos}
use mathlib.Core.Option
use thunix.Keyboard.{
  Keyboard, is_break, shifted, enqueue, map_for, put_key, pln, set_clear_mode, modifier,
  with_modifier, cap, other_key, keyboard_interrupt, interrupts, do_get_key, take_key, get_key,
  is_zero,
}

-- the buffer after `keys` have been stored from index `i` on
stored : Memory → ℕ → List ℕ → Memory
stored ring i [] = ring
stored ring i (key ∷ keys) = stored (store ring i key) (i + 1) keys

stored_below : (keys : List ℕ) (ring : Memory) (i x : ℕ) → x < i → stored ring i keys x ≡ ring x
unfolding stored
stored_below [] ring i x h = refl
stored_below (key ∷ keys) ring i x h =
    stored_below keys (store ring i key) (i + 1) x (omega arith)
    ∙ store_ne ring i key x (omega arith)

-- `n` cells from index `i` on
cells : Memory → ℕ → ℕ → List ℕ
cells ring i zero = []
cells ring i (suc n) = ring i ∷ cells ring (i + 1) n

cells-stored :
    (keys : List ℕ) (ring : Memory) (i : ℕ) → cells (stored ring i keys) i (length keys) ≡ keys
unfolding cells stored
cells-stored [] ring i = refl
cells-stored (key ∷ keys) ring i =
    rw
      (
        stored_below keys (store ring i key) (i + 1) i (omega arith),
        store_self ring i key,
        cells-stored keys (store ring i key) (i + 1),
      )
      refl

-- `keys` have been stored behind those that were there, and no key was taken.
record Typed (k : Keyboard) (keys : List ℕ) (k' : Keyboard) : Type 0 where
  ring : k'.kbd_ring_buffer ≡ stored k.kbd_ring_buffer k.wi keys
  write : k'.wi ≡ k.wi + length keys
  read : k'.ri ≡ k.ri

stored-append :
    (xs ys : List ℕ) (ring : Memory) (i : ℕ)
    → stored ring i (xs ++ ys) ≡ stored (stored ring i xs) (i + length xs) ys
unfolding stored
stored-append [] ys ring i = ap (λ j. stored ring j ys) (omega arith)
stored-append (x ∷ xs) ys ring i =
    stored-append xs ys (store ring i x) (i + 1)
    ∙ ap (λ j. stored (stored (store ring i x) (i + 1) xs) j ys) (omega arith)

Typed-append :
    (k k1 k2 : Keyboard) (xs ys : List ℕ) → Typed k xs k1 → Typed k1 ys k2 → Typed k (xs ++ ys) k2
Typed-append k k1 k2 xs ys t u = record {
  ring =
      u.ring
      ∙ ap (λ r. stored r k1.wi ys) t.ring
      ∙ ap (λ w. stored (stored k.kbd_ring_buffer k.wi xs) w ys) t.write
      ∙ sym (stored-append xs ys k.kbd_ring_buffer k.wi);
  write = ground (arith, u.write, t.write, length-append xs ys);
  read = u.read ∙ t.read;
}

Typed-nothing :
    (k k' : Keyboard)
    → k'.kbd_ring_buffer ≡ k.kbd_ring_buffer
    → k'.wi ≡ k.wi
    → k'.ri ≡ k.ri
    → Typed k [] k'
unfolding stored
Typed-nothing k k' r w e = record { ring = r; write = ground arith; read = e }

module _ (beyond : ℕ → Option (ℕ → ℕ)) where
  -- the key that a scancode gives in a map
  unfoldable pub key_in : Keyboard → ℕ → Option (ℕ → ℕ) → List ℕ
  unfolding shifted
  key_in k scancode none = []
  key_in k scancode (some map) = shifted k (map scancode) ∷ []

  -- A modifier, the Caps Lock key and the release of a key type nothing.
  unfoldable pub key_of : Keyboard → ℕ → Option ℕ → List ℕ
  unfolding key_in map_for
  key_of k scancode (some flag) = []
  key_of k scancode none =
      if (scancode % 128 == 0x3a) || is_break scancode
      then []
      else key_in k scancode (map_for beyond (bit_and k.mode 0x3f))

  unfoldable pub keys_of : Keyboard → ℕ → List ℕ
  unfolding key_of modifier
  keys_of k scancode =
      if scancode == 0xe0 then [] else key_of k scancode (modifier k.got_e0 scancode)

  -- the keys that a list of scancodes types
  unfoldable pub typed : Keyboard → List ℕ → List ℕ
  unfolding keys_of
  typed k [] = []
  typed k (scancode ∷ scancodes) =
      keys_of k scancode ++ typed (keyboard_interrupt beyond k scancode) scancodes

  put_key-Typed :
      (k : Keyboard) (scancode : ℕ) (map : Option (ℕ → ℕ))
      → k.wi + 1 < 1024
      → Typed k (key_in k scancode map) (put_key k scancode map)
  unfolding key_in put_key stored store enqueue
  put_key-Typed k scancode none h = Typed-nothing k k refl refl refl
  put_key-Typed k scancode (some map) h = record { ring = refl; write = ground arith; read = refl }

  cap-Typed : (k : Keyboard) (scancode : ℕ) → Typed k [] (cap k scancode)
  unfolding cap
  cap-Typed k scancode = elim (Bool-cases (is_break scancode)) [
    | inl e ↦ rw e (Typed-nothing k _ refl refl refl)
    | inr e ↦ rw e (Typed-nothing k _ refl refl refl)
  ]

  with_modifier-Typed :
      (k : Keyboard) (scancode flag : ℕ) → Typed k [] (with_modifier k scancode flag)
  unfolding with_modifier set_clear_mode
  with_modifier-Typed k scancode flag = elim (Bool-cases (is_break scancode)) [
    | inl e ↦ rw e (Typed-nothing k _ refl refl refl)
    | inr e ↦ rw e (Typed-nothing k _ refl refl refl)
  ]

  other_key-Typed :
      (k : Keyboard) (scancode : ℕ) (flag : Option ℕ)
      → k.wi + 1 < 1024
      → Typed k (key_of k scancode flag) (other_key beyond k scancode flag)
  unfolding key_of other_key pln
  other_key-Typed k scancode (some flag) h = with_modifier-Typed k scancode flag
  other_key-Typed k scancode none h = elim (Bool-cases (scancode % 128 == 0x3a)) [
    | inl e ↦ rw e (cap-Typed k scancode)
    | inr e ↦ rw e (elim (Bool-cases (is_break scancode)) [
      | inl b ↦ rw b (Typed-nothing k _ refl refl refl)
      | inr b ↦ rw b (put_key-Typed k scancode _ h)
    ])
  ]

  keyboard_interrupt-Typed :
      (k : Keyboard) (scancode : ℕ)
      → k.wi + 1 < 1024
      → Typed k (keys_of k scancode) (keyboard_interrupt beyond k scancode)
  unfolding keys_of keyboard_interrupt
  keyboard_interrupt-Typed k scancode h = elim (Bool-cases (scancode == 0xe0)) [
    | inl e ↦ rw e (Typed-nothing k _ refl refl refl)
    | inr e ↦ rw e (other_key-Typed k scancode _ h)
  ]

  key_in-length :
      (k : Keyboard) (scancode : ℕ) (map : Option (ℕ → ℕ)) → length (key_in k scancode map) ≤ 1
  unfolding key_in
  key_in-length k scancode none = omega arith
  key_in-length k scancode (some map) = omega arith

  key_of-length :
      (k : Keyboard) (scancode : ℕ) (flag : Option ℕ) → length (key_of k scancode flag) ≤ 1
  unfolding key_of
  key_of-length k scancode (some flag) = omega arith
  key_of-length k scancode none =
      ground (arith, key_in-length k scancode (map_for beyond (bit_and k.mode 0x3f)))

  keys_of-length : (k : Keyboard) (scancode : ℕ) → length (keys_of k scancode) ≤ 1
  unfolding keys_of
  keys_of-length k scancode = ground (arith, key_of-length k scancode (modifier k.got_e0 scancode))

  interrupts-Typed :
      (scancodes : List ℕ) (k : Keyboard)
      → k.wi + length scancodes < 1024
      → Typed k (typed k scancodes) (interrupts beyond k scancodes)
  unfolding typed interrupts
  interrupts-Typed [] k h = Typed-nothing k k refl refl refl
  interrupts-Typed (scancode ∷ scancodes) k h =
      Typed-append k (keyboard_interrupt beyond k scancode) _ (keys_of k scancode) _
        (keyboard_interrupt-Typed k scancode (omega arith))
        (interrupts-Typed scancodes (keyboard_interrupt beyond k scancode) (
          omega (
            arith,
            keys_of-length k scancode,
            (keyboard_interrupt-Typed k scancode (omega arith)).write,
          )))

  first_then :
      Option (ℕ × Keyboard) → (Keyboard → Option (List ℕ × Keyboard)) → Option (List ℕ × Keyboard)
  first_then none rest = none
  first_then (some (key, k)) rest = Option.map (λ out. (key ∷ out.0, out.1)) (rest k)

  -- `n` calls of `get_key`; what arrives, arrives during the first.
  pub get_keys : ℕ → Keyboard → List ℕ → Option (List ℕ × Keyboard)
  unfolding first_then
  get_keys zero k arrived = some ([], k)
  get_keys (suc n) k arrived = first_then (get_key beyond k arrived) (λ k1. get_keys n k1 [])

  get_key-left :
      (n : ℕ) (k : Keyboard) (arrived : List ℕ)
      → k.key_left ≡ pos (suc n)
      → get_key beyond k arrived ≡ some (take_key k)
  unfolding get_key
  get_key-left n k arrived e = rw some_left refl
    where
      some_left : not (is_zero k.key_left) ≡ true
      some_left = rw e (ground arith)

  get_key-arrived :
      (k : Keyboard) (arrived : List ℕ)
      → k.key_left ≡ pos 0
      → (do_get_key beyond k arrived).ri ≢ (do_get_key beyond k arrived).wi
      → get_key beyond k arrived ≡ some (take_key (do_get_key beyond k arrived))
  unfolding get_key
  get_key-arrived k arrived e ne = rw (none_left, fresh) refl
    where
      none_left : not (is_zero k.key_left) ≡ false
      none_left = rw e refl

      fresh : ((do_get_key beyond k arrived).ri == (do_get_key beyond k arrived).wi) ≡ false
      fresh = ground arith

  -- what `get_keys` comes to: the keys, in a state in which none is left
  Returns : Option (List ℕ × Keyboard) → List ℕ → Type 0
  Returns out keys = (k' : Keyboard) × (out ≡ some (keys, k')) × (k'.key_left ≡ pos 0)

  drain :
      (n : ℕ) (k : Keyboard)
      → k.key_left ≡ pos n
      → Returns (get_keys n k []) (cells k.kbd_ring_buffer k.ri n)
  unfolding Returns get_keys cells take_key ◌-ℤ◌
  drain zero k e = (k, refl, e)
  drain (suc n) k e =
      let (k', got, none_left) = drain n (take_key k).1 (rw e (ground arith)) in
      (k', rw (get_key-left n k [] e, got) refl, none_left)

  get_keys-arrived :
      (n : ℕ) (k : Keyboard) (arrived : List ℕ)
      → let k1 = do_get_key beyond k arrived in
        k.key_left ≡ pos 0
        → k1.key_left ≡ pos (suc n)
        → k1.ri ≢ k1.wi
        → get_keys (suc n) k arrived ≡ get_keys (suc n) k1 []
  unfolding get_keys
  get_keys-arrived n k arrived e left ne =
      rw (get_key-arrived k arrived e ne, get_key-left n (do_get_key beyond k arrived) [] left) refl

  get_keys-Typed :
      (k : Keyboard) (arrived keys : List ℕ)
      → k.key_left ≡ pos 0
      → 0 < length keys
      → Typed (record k { ri = k.wi }) keys (interrupts beyond (record k { ri = k.wi }) arrived)
      → Returns (get_keys (length keys) k arrived) keys
  unfolding do_get_key Returns
  get_keys-Typed k arrived [] e some_key t = absurd (omega arith)
  get_keys-Typed k arrived (key ∷ keys) e some_key t =
      rw (get_keys-arrived (length keys) k arrived e left (λ same. omega (arith, t.write, t.read)))
        (rw contents at (drain (length (key ∷ keys)) k1 left))
    where
      k1 : Keyboard
      k1 = do_get_key beyond k arrived

      left : k1.key_left ≡ pos (suc (length keys))
      left = ground (arith, t.write, t.read)

      contents : cells k1.kbd_ring_buffer k1.ri (length (key ∷ keys)) ≡ key ∷ keys
      contents = rw (t.ring, t.read) (cells-stored (key ∷ keys) k.kbd_ring_buffer k.wi)

  -- While nothing is left of the keys before, and fewer scancodes arrive than there is room for up to
  -- the end of the buffer, of which at least one types a key: as many calls of `get_key` as keys were
  -- typed return those keys in the order in which they were typed, and nothing is left.
  pub get_keys_lem :
      (k : Keyboard) (arrived : List ℕ)
      → k.key_left ≡ pos 0
      → k.wi + length arrived < 1024
      → let keys = typed (record k { ri = k.wi }) arrived in
        0 < length keys
        → (k' : Keyboard) × (get_keys (length keys) k arrived ≡ some (keys, k'))
          × (k'.key_left ≡ pos 0)
  unfolding Returns
  get_keys_lem k arrived e room some_key =
      get_keys-Typed k arrived (typed (record k { ri = k.wi }) arrived) e some_key
        (interrupts-Typed arrived (record k { ri = k.wi }) room)
