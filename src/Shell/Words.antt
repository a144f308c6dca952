-- ===== src/Shell/Words.antt =====
-- kernel/shell.c, `parse_command`: the words of a line become the arguments.
use thunix.Base.{
  ℕ, zero, suc, ◌+◌, ◌-◌, ◌<◌, ◌≡◌, refl, sym, ap, ◌∙◌, ◌≢◌, true, false, ◌||◌, some, List, [], ◌∷◌,
  ◌++◌, arith, leb, ◌==◌, length, length-append, Memory, store, store_self, store_ne,
}
use thunix.Strings.Scan.{CStr, CStr-moved}
use thunix.Strings.Scan.{CStr-end, CStr-behind}
use thunix.Shell.{max_option, space, word_end, over_spaces, next_word, args_from, parse_command}

-- a word: bytes that are neither NUL nor a space
abbrev pub NoSpace : List ℕ → Type 0
NoSpace [] = Unit
NoSpace (x ∷ xs) = (x ≢ 0) × (x ≢ space) × NoSpace xs

-- words that are not empty
abbrev pub AreWords : List (List ℕ) → Type 0
AreWords [] = Unit
AreWords (w ∷ ws) = NoSpace w × (0 < length w) × AreWords ws

-- the line with one space between two words
abbrev pub line : List (List ℕ) → List ℕ
line [] = []
line (w ∷ []) = w
line (w ∷ v ∷ ws) = w ++ space ∷ line (v ∷ ws)

-- the words stand at the addresses
abbrev pub Args : Memory → List ℕ → List (List ℕ) → Type 0
Args m [] [] = Unit
Args m [] (w ∷ ws) = ⊥
Args m (a ∷ argv) [] = ⊥
Args m (a ∷ argv) (w ∷ ws) = CStr m a w × Args m argv ws

-- a word ends at a space or a NUL
word_end_lem :
    (w ys : List ℕ) (chars : ℕ) (m : Memory) (p : ℕ)
    → CStr m p (w ++ ys)
    → NoSpace w
    → ((m (p + length w) == 0) || (m (p + length w) == space)) ≡ true
    → length w < chars
    → word_end chars m p ≡ some (p + length w)
unfolding word_end
word_end_lem w ys zero m p text word ends enough = absurd (omega (arith, enough))
word_end_lem [] ys (suc chars) m p text word ends enough = rw here (ap some (sym plus_zero))
  where
    plus_zero : p + 0 ≡ p
    plus_zero = omega arith

    here : (m p == 0 || m p == space) ≡ true
    here = rw (← plus_zero) ends
word_end_lem (x ∷ w) ys (suc chars) m p (e, nonzero, text) (nz, ns, word) ends enough =
    rw
      (
        goes,
        word_end_lem w ys chars m (p + 1) text word (rw (← shifted) ends) (omega (arith, enough)),
      )
      (ap some (sym shifted))
  where
    goes : (m p == 0 || m p == space) ≡ false
    goes = ground (arith, e, nz, ns)

    shifted : p + suc (length w) ≡ p + 1 + length w
    shifted = omega arith

over_none :
    (chars : ℕ) (m : Memory) (p : ℕ) → m p ≢ space → 0 < chars → over_spaces chars m p ≡ some p
unfolding over_spaces
over_none zero m p other enough = absurd (omega (arith, enough))
over_none (suc chars) m p other enough = ground (arith, other)

over_one :
    (chars : ℕ) (m : Memory) (p : ℕ)
    → m p ≡ space
    → m (p + 1) ≢ space
    → 1 < chars
    → over_spaces chars m p ≡ some (p + 1)
unfolding over_spaces
over_one zero m p here other enough = absurd (omega (arith, enough))
over_one (suc chars) m p here other enough =
    rw (here, over_none chars m (p + 1) other (omega (arith, enough))) refl

line-Starts :
    (w : List ℕ) (ws : List (List ℕ)) (m : Memory) (p : ℕ)
    → AreWords (w ∷ ws)
    → CStr m p (line (w ∷ ws))
    → (m p ≢ 0) × (m p ≢ space)
line-Starts [] ws m p (word, some_byte, words) text = absurd (omega (arith, some_byte))
line-Starts (x ∷ w) [] m p ((nz, ns, word), some_byte, words) (e, nonzero, text) =
    (λ q. nz (sym e ∙ q), λ q. ns (sym e ∙ q))
line-Starts (x ∷ w) (v ∷ ws) m p ((nz, ns, word), some_byte, words) (e, nonzero, text) =
    (λ q. nz (sym e ∙ q), λ q. ns (sym e ∙ q))

-- a string behind a place where a byte is stored
CStr-above : (m : Memory) (p v s : ℕ) (xs : List ℕ) → p < s → CStr m s xs → CStr (store m p v) s xs
CStr-above m p v s xs high =
    CStr-moved m (store m p v) s s xs (λ i low. store_ne m p v (s + i) (omega (arith, high)))

-- a word whose bytes are kept, and whose end is 0
kept_word :
    (w ys : List ℕ) (m m' : Memory) (s : ℕ)
    → CStr m s (w ++ ys)
    → ((a : ℕ) → a < s + length w → m' a ≡ m a)
    → m' (s + length w) ≡ 0
    → CStr m' s w
kept_word [] ys m m' s text below end = ap m' (omega arith) ∙ end
kept_word (x ∷ w) ys m m' s (e, nonzero, text) below end = (
  below s (omega arith) ∙ e,
  nonzero,
  kept_word w ys m m' (s + 1) text (λ a low. below a (omega (arith, low)))
      (ap m' (omega arith) ∙ end),
)

-- What the loop does from the end of a word on: the words of the rest are the arguments, there is a NUL
-- at that end, and no byte before it has changed.
pub CutFrom : ℕ → ℕ → Memory → ℕ → ℕ → List (List ℕ) → Type 0
CutFrom chars fuel m p argc ws =
    (m' : Memory) × (argv : List ℕ) × (args_from chars fuel m p argc ≡ some (m', argv))
    × Args m' argv ws
    × (m' p ≡ 0)
    × ((a : ℕ) → a < p → m' a ≡ m a)

CStr-append_nil : (w : List ℕ) (m : Memory) (s : ℕ) → CStr m s w → CStr m s (w ++ [])
CStr-append_nil [] m s text = text
CStr-append_nil (x ∷ w) m s (e, nonzero, text) = (e, nonzero, CStr-append_nil w m (s + 1) text)

-- the last word, and one before it
last_word :
    (w : List ℕ) (chars : ℕ) (m : Memory) (s : ℕ)
    → CStr m s w
    → NoSpace w
    → length w < chars
    → next_word chars m s ≡ some (s + length w)
unfolding next_word
last_word w chars m s text word enough =
    let end = CStr-end m s w text in
    rw
      (
        word_end_lem w [] chars m s (CStr-append_nil w m s text) word (ground (arith, end)) enough,
        next_word,
      )
      (over_none chars m (s + length w) (λ q. omega (arith, q, end)) (omega (arith, enough)))

word_before :
    (w v : List ℕ) (ws : List (List ℕ)) (chars : ℕ) (m : Memory) (s : ℕ)
    → CStr m s (w ++ space ∷ line (v ∷ ws))
    → NoSpace w
    → AreWords (v ∷ ws)
    → length w + 1 < chars
    → next_word chars m s ≡ some (s + length w + 1)
unfolding next_word
word_before w v ws chars m s text word words enough =
    let (here, nonzero, rest) = CStr-behind w (space ∷ line (v ∷ ws)) m s text in
    rw
      (
        word_end_lem w (space ∷ line (v ∷ ws)) chars m s text word (ground (arith, here))
            (omega (arith, enough)),
        next_word,
      )
      (over_one chars m (s + length w) here (line-Starts v ws m (s + length w + 1) words rest).1
        (omega (arith, enough)))

length-line :
    (w v : List ℕ) (ws : List (List ℕ))
    → length (line (w ∷ v ∷ ws)) ≡ length w + 1 + length (line (v ∷ ws))
length-line w v ws = omega (arith, length-append w (space ∷ line (v ∷ ws)))

args_lem :
    (ws : List (List ℕ)) (w : List ℕ) (chars fuel : ℕ) (m : Memory) (p argc : ℕ)
    → m p ≡ space
    → CStr m (p + 1) (line (w ∷ ws))
    → AreWords (w ∷ ws)
    → argc + length ws < max_option
    → length ws < fuel
    → length (line (w ∷ ws)) + 1 < chars
    → CutFrom chars fuel m p argc (w ∷ ws)
unfolding args_from CutFrom
args_lem ws w chars zero m p argc here text words few enough long = absurd (omega (arith, enough))
args_lem [] w chars (suc fuel) m p argc here text (word, some_byte, words) few enough long =
    let cut = store m p 0 in
    let text1 = CStr-above m p 0 (p + 1) w (omega arith) text in
    let end : (cut (p + 1 + length w) == 0) ≡ true = ground (arith, CStr-end cut (p + 1) w text1) in
    (
      cut,
      (p + 1) ∷ [],
      rw (goes, last_word w chars cut (p + 1) text1 word (omega (arith, long)), end) refl,
      (text1, tt),
      store_self m p 0,
      λ a low. store_ne m p 0 a (omega (arith, low)),
    )
  where
    goes : (m p == 0 || leb max_option argc) ≡ false
    goes = ground (arith, here, few)
args_lem (v ∷ ws) w chars (suc fuel) m p argc here text (word, some_byte, words) few enough long =
    let cut = store m p 0 in
    let q = p + 1 + length w in
    let text1 = CStr-above m p 0 (p + 1) (w ++ space ∷ line (v ∷ ws)) (omega arith) text in
    let (at_q, nonzero, rest) = CStr-behind w (space ∷ line (v ∷ ws)) cut (p + 1) text1 in
    let starts = line-Starts v ws cut (q + 1) words rest in
    let more : (cut (q + 1) == 0) ≡ false = ground (arith, starts.0) in
    let back : q + 1 - 1 ≡ q = omega arith in
    let (m', argv, e, args, end, below) =
      args_lem ws v chars fuel cut q (argc + 1) at_q rest words (omega (arith, few))
        (omega (arith, enough)) (omega (arith, long, length-line w v ws)) in
    let found : args_from chars fuel cut (q + 1 - 1) (argc + 1) ≡ some (m', argv) =
      ap (λ x. args_from chars fuel cut x (argc + 1)) back ∙ e in
    (
      m',
      (p + 1) ∷ argv,
      rw
          (
            goes,
            word_before w v ws chars cut (p + 1) text1 word words
                (omega (arith, long, length-line w v ws)),
            more,
            found,
          )
          refl,
      (kept_word w (space ∷ line (v ∷ ws)) cut m' (p + 1) text1 below end, args),
      below p (omega arith) ∙ store_self m p 0,
      λ a low. below a (omega (arith, low)) ∙ store_ne m p 0 a (omega (arith, low)),
    )
  where
    goes : (m p == 0 || leb max_option argc) ≡ false
    goes = ground (arith, here, few)

-- For a line at `command` of up to ten words with one space between two, and rounds for its bytes:
-- `parse_command` runs the command with as many arguments as there are words, and each word is the
-- string at its argument.
pub parse_command_lem :
    (w : List ℕ) (ws : List (List ℕ)) (chars : ℕ) (m : Memory) (command : ℕ)
    → CStr m command (line (w ∷ ws))
    → AreWords (w ∷ ws)
    → length ws < max_option
    → length (line (w ∷ ws)) + 1 < chars
    → (m' : Memory) × (argv : List ℕ) × (parse_command chars m command ≡ some (m', argv))
      × Args m' argv (w ∷ ws)
unfolding parse_command args_from CutFrom
parse_command_lem w [] chars m command text (word, some_byte, words) few long =
    let end = CStr-end m command w text in
    let ended : (m (command + length w) == 0) ≡ true = ground (arith, end) in
    (
      m,
      command ∷ [],
      rw
          (
            word_end_lem w [] chars m command (CStr-append_nil w m command text) word
                (ground (arith, end)) (omega (arith, long)),
            parse_command,
            ended,
          )
          refl,
      (text, tt),
    )
parse_command_lem w (v ∷ ws) chars m command text (word, some_byte, words) few long =
    let (here, nonzero, rest) = CStr-behind w (space ∷ line (v ∷ ws)) m command text in
    let (m', argv, e, args, end, below) =
      args_lem ws v chars max_option m (command + length w) 1 here rest words (omega (arith, few))
        (omega (arith, few)) (omega (arith, long, length-line w v ws)) in
    (
      m',
      command ∷ argv,
      rw
          (
            word_end_lem w (space ∷ line (v ∷ ws)) chars m command text word (ground (arith, here))
                (omega (arith, long, length-line w v ws)),
            parse_command,
            e,
          )
          refl,
      (kept_word w (space ∷ line (v ∷ ws)) m m' command text below end, args),
    )
