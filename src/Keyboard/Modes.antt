-- ===== src/Keyboard/Modes.antt =====
-- kernel/kb.c: `mode` holds the modifiers that are down.
use thunix.Base.{
  ℕ, ◌-◌, ◌%◌, ◌^◌, ◌<◌, bit_and, bit_or, ◌≡◌, refl, inl, inr, Bool, true, false, ◌&&◌, ◌||◌, not,
  Option, none, some, arith, ltb, ◌==◌, if◌then◌else◌, ==_iff, Bool-cases, test_up_to,
  test_up_to-at,
}
use thunix.Keyboard.{
  Keyboard, kbd_buf_size, is_break, has_flag, enqueue, put_key, pln, set_clear_mode, modifier,
  with_modifier, cap, other_key, keyboard_interrupt,
}

-- What `set_clear_mode` does to the flags, checked for all values of `mode`.

same : Bool → Bool → Bool
same a b = (a && b) || not (a || b)

same-eq : (a b : Bool) → same a b ≡ true → a ≡ b
unfolding same
same-eq a b h = ground arith

set_test : ℕ → ℕ → ℕ → Bool
unfolding same
set_test m i j =
    ltb (bit_or m (2 ^ i)) 64
    && same (has_flag (bit_or m (2 ^ i)) (2 ^ j)) ((i == j) || has_flag m (2 ^ j))

clear_test : ℕ → ℕ → ℕ → Bool
unfolding same
clear_test m i j =
    ltb (bit_and m (255 - 2 ^ i)) 64
    && same (has_flag (bit_and m (255 - 2 ^ i)) (2 ^ j)) (not (i == j) && has_flag m (2 ^ j))

all_modes : (ℕ → ℕ → ℕ → Bool) → Bool
unfolding test_up_to
all_modes test = test_up_to 64 (λ m. test_up_to 6 (λ i. test_up_to 6 (λ j. test m i j)))

set_checked : all_modes set_test ≡ true
unfolding all_modes set_test
set_checked = refl

clear_checked : all_modes clear_test ≡ true
unfolding all_modes clear_test
clear_checked = refl

all_modes-at :
    (test : ℕ → ℕ → ℕ → Bool) (m i j : ℕ)
    → all_modes test ≡ true
    → m < 64
    → i < 6
    → j < 6
    → test m i j ≡ true
unfolding all_modes
all_modes-at test m i j h hm hi hj =
    test_up_to-at 6 (λ j. test m i j) j
      (test_up_to-at 6 (λ i. test_up_to 6 (λ j. test m i j)) i
        (test_up_to-at 64 (λ m. test_up_to 6 (λ i. test_up_to 6 (λ j. test m i j))) m h hm) hi)
      hj

set_lem :
    (m i j : ℕ)
    → m < 64
    → i < 6
    → j < 6
    → (bit_or m (2 ^ i) < 64)
      × (has_flag (bit_or m (2 ^ i)) (2 ^ j) ≡ (if i == j then true else has_flag m (2 ^ j)))
unfolding set_test
set_lem m i j hm hi hj =
    let h = all_modes-at set_test m i j set_checked hm hi hj in
    (
      ground (arith, h),
      ground (
        arith,
        h,
        same-eq (has_flag (bit_or m (2 ^ i)) (2 ^ j)) ((i == j) || has_flag m (2 ^ j)),
      ),
    )

clear_lem :
    (m i j : ℕ)
    → m < 64
    → i < 6
    → j < 6
    → (bit_and m (255 - 2 ^ i) < 64)
      × (has_flag (bit_and m (255 - 2 ^ i)) (2 ^ j)
          ≡ (if i == j then false else has_flag m (2 ^ j)))
unfolding clear_test
clear_lem m i j hm hi hj =
    let h = all_modes-at clear_test m i j clear_checked hm hi hj in
    (
      ground (arith, h),
      ground (
        arith,
        h,
        same-eq (has_flag (bit_and m (255 - 2 ^ i)) (2 ^ j)) (not (i == j) && has_flag m (2 ^ j)),
      ),
    )

-- the modifier with number `i` is down
pub down : Keyboard → ℕ → Bool
down k i = has_flag k.mode (2 ^ i)

-- `mode` is made of the six flags, and the place of the next key lies in the buffer.
pub record IsKeyboard (k : Keyboard) : Type 0 where
  pub mode_small : k.mode < 64
  pub write_in_buffer : k.wi < kbd_buf_size

set_clear_mode-down :
    (k : Keyboard) (scancode i j : ℕ)
    → k.mode < 64
    → i < 6
    → j < 6
    → ((set_clear_mode k scancode (2 ^ i)).mode < 64)
      × (down (set_clear_mode k scancode (2 ^ i)) j
          ≡ (if i == j then not (is_break scancode) else down k j))
unfolding down set_clear_mode
set_clear_mode-down k scancode i j hm hi hj = elim (Bool-cases (is_break scancode)) [
  | inl e ↦ rw e (clear_lem k.mode i j hm hi hj)
  | inr e ↦ rw e (set_lem k.mode i j hm hi hj)
]

-- the number of the modifier in a scancode, if it is one
pub modifier_nr : Bool → ℕ → Option ℕ
modifier_nr got_e0 scancode =
    let code = scancode % 128 in
    if code == 0x2a
    then some 0
    else if code == 0x36
    then some 1
    else if code == 0x1d
    then some (if got_e0 then 3 else 2)
    else if code == 0x38
    then some (if got_e0 then 5 else 4)
    else none

modifier_nr-e0 :
    (got_e0 : Bool) (scancode : ℕ) → scancode ≡ 0xe0 → modifier_nr got_e0 scancode ≡ none
unfolding modifier_nr
modifier_nr-e0 got_e0 scancode e = rw e refl

-- the modifiers after a scancode: one that it names is down unless the key is released
pub down_after : Keyboard → ℕ → Option ℕ → ℕ → Bool
unfolding down
down_after k scancode none j = down k j
down_after k scancode (some i) j = if i == j then not (is_break scancode) else down k j

data Modifier : Option ℕ → Option ℕ → Type 0 where
  no_modifier : Modifier none none
  a_modifier : (i : ℕ) → i < 6 → Modifier (some i) (some (2 ^ i))

if-Modifier :
    (b : Bool) (x y u v : Option ℕ)
    → Modifier x u
    → Modifier y v
    → Modifier (if b then x else y) (if b then u else v)
if-Modifier true x y u v m n = m
if-Modifier false x y u v m n = n

modifier-Modifier :
    (got_e0 : Bool) (scancode : ℕ)
    → Modifier (modifier_nr got_e0 scancode) (modifier got_e0 scancode)
unfolding modifier_nr modifier
modifier-Modifier true scancode = if-Modifier _ _ _ _ _ (a_modifier 0 (omega arith)) (
    if-Modifier _ _ _ _ _ (a_modifier 1 (omega arith)) (
      if-Modifier _ _ _ _ _ (a_modifier 3 (omega arith))
        (if-Modifier _ _ _ _ _ (a_modifier 5 (omega arith)) no_modifier)))
modifier-Modifier false scancode = if-Modifier _ _ _ _ _ (a_modifier 0 (omega arith)) (
    if-Modifier _ _ _ _ _ (a_modifier 1 (omega arith)) (
      if-Modifier _ _ _ _ _ (a_modifier 2 (omega arith))
        (if-Modifier _ _ _ _ _ (a_modifier 4 (omega arith)) no_modifier)))

module _ (beyond : ℕ → Option (ℕ → ℕ)) where
  -- The invariant holds, and the modifiers are as `after` says.
  record Kept (k' : Keyboard) (after : ℕ → Bool) : Type 0 where
    sound : IsKeyboard k'
    modes : (j : ℕ) → j < 6 → down k' j ≡ after j

  put_key-Kept :
      (k : Keyboard) (scancode : ℕ) (map : Option (ℕ → ℕ))
      → IsKeyboard k
      → Kept (put_key k scancode map) (down k)
  unfolding put_key enqueue down
  put_key-Kept k scancode none h = record { sound = h; modes = λ j hj. refl }
  put_key-Kept k scancode (some map) h = record {
    sound = record { mode_small = h.mode_small; write_in_buffer = omega arith };
    modes = λ j hj. refl;
  }

  plain-Kept :
      (k : Keyboard) (scancode : ℕ)
      → IsKeyboard k
      → Kept (other_key beyond k scancode none) (down k)
  unfolding other_key cap pln down
  plain-Kept k scancode h = elim (Bool-cases (scancode % 128 == 0x3a)) [
    | inl e ↦ rw e (elim (Bool-cases (is_break scancode)) [
      | inl b ↦ rw b (record { sound = h; modes = λ j hj. refl })
      | inr b ↦ rw b (record {
        sound = record { mode_small = h.mode_small; write_in_buffer = h.write_in_buffer };
        modes = λ j hj. refl;
      })
    ])
    | inr e ↦ rw e (elim (Bool-cases (is_break scancode)) [
      | inl b ↦ rw b (record { sound = h; modes = λ j hj. refl })
      | inr b ↦ rw b (put_key-Kept k scancode _ h)
    ])
  ]

  set_clear_mode-wi :
      (k : Keyboard) (scancode flag : ℕ) → (set_clear_mode k scancode flag).wi ≡ k.wi
  unfolding set_clear_mode
  set_clear_mode-wi k scancode flag = elim (Bool-cases (is_break scancode)) [
    | inl e ↦ rw e refl
    | inr e ↦ rw e refl
  ]

  with_modifier-Kept :
      (k : Keyboard) (scancode i : ℕ)
      → i < 6
      → IsKeyboard k
      → Kept (with_modifier k scancode (2 ^ i)) (down_after k scancode (some i))
  unfolding with_modifier down_after down
  with_modifier-Kept k scancode i hi h = record {
    sound = record {
      mode_small = (set_clear_mode-down k scancode i 0 h.mode_small hi (omega arith)).0;
      write_in_buffer = ground (arith, set_clear_mode-wi k scancode (2 ^ i), h.write_in_buffer);
    };
    modes = λ j hj. (set_clear_mode-down k scancode i j h.mode_small hi hj).1;
  }

  other_key-Kept :
      (k : Keyboard) (scancode : ℕ) (nr flag : Option ℕ)
      → Modifier nr flag
      → IsKeyboard k
      → Kept (other_key beyond k scancode flag) (down_after k scancode nr)
  unfolding down_after other_key
  other_key-Kept k scancode _ _ no_modifier h = plain-Kept k scancode h
  other_key-Kept k scancode _ _ (a_modifier i hi) h = with_modifier-Kept k scancode i hi h

  -- Where `mode` is made of the six flags and the place of the next key lies in the buffer, both hold
  -- after an interrupt too; the modifier that the scancode names, if it names one, is down afterwards
  -- unless the scancode is of a release, and every other modifier is as before.
  pub keyboard_interrupt-down :
      (k : Keyboard) (scancode : ℕ)
      → IsKeyboard k
      → IsKeyboard (keyboard_interrupt beyond k scancode)
        × ((j : ℕ)
            → j < 6
            → down (keyboard_interrupt beyond k scancode) j
              ≡ down_after k scancode (modifier_nr k.got_e0 scancode) j)
  unfolding keyboard_interrupt down_after down
  keyboard_interrupt-down k scancode h = elim (Bool-cases (scancode == 0xe0)) [
    | inl e ↦
        rw (e, modifier_nr-e0 k.got_e0 scancode ((==_iff _ _).0 e))
          (record { mode_small = h.mode_small; write_in_buffer = h.write_in_buffer }, λ j hj. refl)
    | inr e ↦ rw e (
        let r = other_key-Kept k scancode _ _ (modifier-Modifier k.got_e0 scancode) h in
        (r.sound, r.modes))
  ]
