-- ===== src/Shell/Typing.antt =====
-- kernel/shell.c, `enter_command`: the keys of a line, and the command that it comes to.
use thunix.Base.{
  ℕ, zero, suc, ◌+◌, ◌-◌, ◌≤◌, ◌<◌, ◌≡◌, refl, sym, ap, ◌∙◌, ◌≢◌, inl, inr, false, Option, none,
  some, List, [], ◌∷◌, ◌++◌, arith, ltb, leb, ◌==◌, if◌then◌else◌, Bool-cases, if-cases, length,
  get_or, length-append, Memory, store, store_self, store_ne,
}
use thunix.Strings.Scan.{CStr}
use thunix.Shell.{
  Shell, turn, overrun, buffer_size, max_option, space, newline, backspace, ctrl_c, end_line, reset,
  enter_command,
}
use thunix.Shell.Words.{AreWords, NoSpace, Args, line, parse_command_lem}

-- the line without its last byte
abbrev pub but_last : List ℕ → List ℕ
but_last [] = []
but_last (x ∷ []) = []
but_last (x ∷ y ∷ xs) = x ∷ but_last (y ∷ xs)

-- the line that keys make of a line
abbrev pub edit : List ℕ → List ℕ → List ℕ
edit xs [] = xs
edit xs (key ∷ keys) = edit (if key == backspace then but_last xs else xs ++ key ∷ []) keys

-- keys that end no line
abbrev pub AreKeys : List ℕ → Type 0
AreKeys [] = Unit
AreKeys (key ∷ keys) = (key ≢ newline) × (key ≢ ctrl_c) × AreKeys keys

module _ (chars command_buffer : ℕ) where
  -- the keys one after the other, where none is written behind the buffer
  pub type_keys : List ℕ → Shell → Option Shell
  type_keys [] s = some s
  type_keys (key ∷ keys) s = elim (enter_command chars command_buffer key s) [
    | none ↦ none
    | some out ↦ elim out [ turn s1 run ↦ type_keys keys s1 | overrun ↦ none ]
  ]

  -- the line that has been typed
  pub record IsTyped (s : Shell) (xs : List ℕ) : Type 0 where
    pub count : s.index ≡ length xs
    pub bytes : (i : ℕ) → i < length xs → s.memory (command_buffer + i) ≡ get_or xs i 0

  length-but_last : (xs : List ℕ) → length (but_last xs) ≡ length xs - 1
  length-but_last [] = refl
  length-but_last (x ∷ []) = refl
  length-but_last (x ∷ y ∷ xs) = omega (arith, length-but_last (y ∷ xs))

  get_or-but_last :
      (xs : List ℕ) (i : ℕ) → i < length xs - 1 → get_or (but_last xs) i 0 ≡ get_or xs i 0
  get_or-but_last [] i low = absurd (omega (arith, low))
  get_or-but_last (x ∷ []) i low = absurd (omega (arith, low))
  get_or-but_last (x ∷ y ∷ xs) zero low = refl
  get_or-but_last (x ∷ y ∷ xs) (suc i) low = get_or-but_last (y ∷ xs) i (omega (arith, low))

  get_or-append :
      (xs : List ℕ) (key i : ℕ) → i < length xs → get_or (xs ++ key ∷ []) i 0 ≡ get_or xs i 0
  get_or-append [] key i low = absurd (omega (arith, low))
  get_or-append (x ∷ xs) key zero low = refl
  get_or-append (x ∷ xs) key (suc i) low = get_or-append xs key i (omega (arith, low))

  get_or-last : (xs : List ℕ) (key : ℕ) → get_or (xs ++ key ∷ []) (length xs) 0 ≡ key
  get_or-last [] key = refl
  get_or-last (x ∷ xs) key = get_or-last xs key

  key-IsTyped :
      (key : ℕ) (s : Shell) (xs : List ℕ)
      → key ≢ newline
      → key ≢ ctrl_c
      → length xs < buffer_size
      → IsTyped s xs
      → (s' : Shell) × (enter_command chars command_buffer key s ≡ some (turn s' none))
        × IsTyped s' (if key == backspace then but_last xs else xs ++ key ∷ [])
  unfolding enter_command
  key-IsTyped key s xs no_newline no_ctrl room typed = elim (Bool-cases (key == backspace)) [
    | inl back ↦ elim (Bool-cases (s.index == 0)) [
      | inl empty ↦ (
        s,
        rw (plain, back, empty) refl,
        rw back (record {
          count = ground (arith, typed.count, empty, length-but_last xs);
          bytes = λ i low. absurd (ground (arith, typed.count, empty, length-but_last xs, low));
        }),
      )
      | inr some_byte ↦ (
        record s { index = s.index - 1 },
        rw (plain, back, some_byte) refl,
        rw back (record {
          count = omega (arith, typed.count, length-but_last xs);
          bytes = λ i low.
              typed.bytes i (omega (arith, low, length-but_last xs))
              ∙ sym (get_or-but_last xs i (omega (arith, low, length-but_last xs)));
        }),
      )
    ]
    | inr other ↦ (
      record { index = s.index + 1; memory = store s.memory (command_buffer + s.index) key },
      rw (plain, other, no_break, inside_buffer) refl,
      rw other (record {
        count = omega (arith, typed.count, length-append xs (key ∷ []));
        bytes = λ i low. byte i (omega (arith, low, length-append xs (key ∷ [])));
      }),
    )
  ]
    where
      plain : (key == newline) ≡ false
      plain = ground (arith, no_newline)

      no_break : (key == ctrl_c) ≡ false
      no_break = ground (arith, no_ctrl)

      inside_buffer : leb buffer_size s.index ≡ false
      inside_buffer = ground (arith, room, typed.count)

      byte :
          (i : ℕ)
          → i ≤ length xs
          → store s.memory (command_buffer + s.index) key (command_buffer + i)
            ≡ get_or (xs ++ key ∷ []) i 0
      byte i low = elim (Bool-cases (ltb i (length xs))) [
        | inl inside ↦
            let l : i < length xs = ground (arith, inside) in
            store_ne s.memory (command_buffer + s.index) key (command_buffer + i)
              (omega (arith, l, typed.count))
            ∙ typed.bytes i l
            ∙ sym (get_or-append xs key i l)
        | inr last ↦
            let here : i ≡ length xs = ground (arith, last, low) in
            ap (store s.memory (command_buffer + s.index) key) (omega (arith, here, typed.count))
            ∙ store_self s.memory (command_buffer + s.index) key
            ∙ sym (ap (λ j. get_or (xs ++ key ∷ []) j 0) here ∙ get_or-last xs key)
      ]

  length-edited :
      (key n : ℕ) (xs : List ℕ)
      → length xs + suc n < buffer_size
      → length (if key == backspace then but_last xs else xs ++ key ∷ []) + n < buffer_size
  length-edited key n xs few =
      if-cases (λ (ys : List ℕ). length ys + n < buffer_size) (key == backspace)
        (λ _. omega (arith, few, length-but_last xs))
        (λ _. omega (arith, few, length-append xs (key ∷ [])))

  type_keys-IsTyped :
      (keys xs : List ℕ) (s : Shell)
      → AreKeys keys
      → length xs + length keys < buffer_size
      → IsTyped s xs
      → (s' : Shell) × (type_keys keys s ≡ some s') × IsTyped s' (edit xs keys)
  unfolding type_keys
  type_keys-IsTyped [] xs s plain few typed = (s, refl, typed)
  type_keys-IsTyped (key ∷ keys) xs s (no_newline, no_ctrl, plain) few typed =
      let (s1, e, typed1) = key-IsTyped key s xs no_newline no_ctrl (omega (arith, few)) typed in
      let (s2, e2, typed2) =
        type_keys-IsTyped keys (if key == backspace then but_last xs else xs ++ key ∷ []) s1 plain
          (length-edited key (length keys) xs few) typed1 in
      (s2, rw (e, type_keys, e2) refl, typed2)

-- keys type at most a byte each
edit-le :
    (keys xs : List ℕ) → length xs + length keys < buffer_size → length (edit xs keys) < buffer_size
edit-le [] xs few = omega (arith, few)
edit-le (key ∷ keys) xs few = edit-le keys _ (length-edited 0 0 key (length keys) xs few)

NonZero : List ℕ → Type 0
NonZero [] = Unit
NonZero (x ∷ xs) = (x ≢ 0) × NonZero xs

words-NonZero : (w ys : List ℕ) → NoSpace w → NonZero ys → NonZero (w ++ space ∷ ys)
unfolding NonZero
words-NonZero [] ys word rest = (λ e. omega (arith, e), rest)
words-NonZero (x ∷ w) ys (nz, ns, word) rest = (nz, words-NonZero w ys word rest)

word-NonZero : (w : List ℕ) → NoSpace w → NonZero w
unfolding NonZero
word-NonZero [] word = tt
word-NonZero (x ∷ w) (nz, ns, word) = (nz, word-NonZero w word)

line-NonZero : (w : List ℕ) (ws : List (List ℕ)) → AreWords (w ∷ ws) → NonZero (line (w ∷ ws))
line-NonZero w [] (word, some_byte, words) = word-NonZero w word
line-NonZero w (v ∷ ws) (word, some_byte, words) =
    words-NonZero w (line (v ∷ ws)) word (line-NonZero v ws words)

line-some_byte : (w : List ℕ) (ws : List (List ℕ)) → AreWords (w ∷ ws) → 0 < length (line (w ∷ ws))
line-some_byte w [] (word, some_byte, words) = some_byte
line-some_byte w (v ∷ ws) (word, some_byte, words) =
    omega (arith, length-append w (space ∷ line (v ∷ ws)))

bytes-CStr :
    (xs : List ℕ) (m : Memory) (s : ℕ)
    → NonZero xs
    → ((i : ℕ) → i < length xs → m (s + i) ≡ get_or xs i 0)
    → m (s + length xs) ≡ 0
    → CStr m s xs
unfolding NonZero
bytes-CStr [] m s nonzero bytes end = ap m (omega arith) ∙ end
bytes-CStr (x ∷ xs) m s (nz, nonzero) bytes end = (
  ap m (omega arith) ∙ bytes 0 (omega arith),
  nz,
  bytes-CStr xs m (s + 1) nonzero (λ i low. ap m (omega arith) ∙ bytes (suc i) (omega (arith, low)))
      (ap m (omega arith) ∙ end),
)

module _ (chars command_buffer : ℕ) where
  -- The keys of a line, at most 511 of them and none the newline or Ctrl-C, typed with nothing typed
  -- before, all stay inside the buffer of 512 bytes: where what they leave, each backspace having taken back the byte before it, is one to ten words with one space
  -- between two, and with rounds for its bytes, the newline behind them runs the command with those
  -- words, in order, as its arguments, and leaves nothing typed.
  pub enter_command_lem :
      (keys w : List ℕ) (ws : List (List ℕ)) (s : Shell)
      → s.index ≡ 0
      → AreKeys keys
      → length keys < buffer_size
      → edit [] keys ≡ line (w ∷ ws)
      → AreWords (w ∷ ws)
      → length ws < max_option
      → length (line (w ∷ ws)) + 1 < chars
      → (s1 : Shell) × (s2 : Shell) × (m' : Memory) × (argv : List ℕ) × (type_keys chars
            command_buffer keys s
          ≡ some s1)
        × (enter_command chars command_buffer newline s1 ≡ some (turn s2 (some (m', argv))))
        × Args m' argv (w ∷ ws)
        × (s2.index ≡ 0)
  unfolding enter_command end_line reset
  enter_command_lem keys w ws s fresh plain in_buffer edits words few long =
      let (s1, typed, is) =
        type_keys-IsTyped chars command_buffer keys [] s plain (omega (arith, in_buffer))
          (record { count = fresh; bytes = λ i low. absurd (omega (arith, low)) }) in
      let ended = store s1.memory (command_buffer + s1.index) 0 in
      let count : s1.index ≡ length (line (w ∷ ws)) = is.count ∙ ap length edits in
      let text : CStr ended command_buffer (line (w ∷ ws)) =
        bytes-CStr (line (w ∷ ws)) ended command_buffer (line-NonZero w ws words)
          (λ i low.
            store_ne s1.memory (command_buffer + s1.index) 0 (command_buffer + i)
              (omega (arith, low, count))
            ∙ is.bytes i (omega (arith, low, count, is.count))
            ∙ ap (λ xs. get_or xs i 0) edits)
          (ap ended (omega (arith, count)) ∙ store_self s1.memory (command_buffer + s1.index) 0) in
      let (m', argv, run, args) =
        parse_command_lem w ws chars ended command_buffer text words few long in
      let some_byte : (s1.index == 0) ≡ false = ground (arith, count, line-some_byte w ws words) in
      let inside : leb buffer_size s1.index ≡ false =
        ground (arith, is.count, edit-le keys [] (omega (arith, in_buffer))) in
      (
        s1,
        reset chars command_buffer (record s1 { memory = m' }),
        m',
        argv,
        typed,
        rw (inside, some_byte, run) refl,
        args,
        refl,
      )
