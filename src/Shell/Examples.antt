-- ===== src/Shell/Examples.antt =====
-- kernel/shell.c: "ls x" at 0, and the keys of it with a byte taken back.
use thunix.Base.{ℕ, ◌≡◌, refl, true, some, List, [], ◌∷◌, arith, ◌==◌, if◌then◌else◌, Memory}
use thunix.Shell.{Shell, turn, newline, parse_command, enter_command}
use thunix.Shell.Words.{AreWords, Args, parse_command_lem}
use thunix.Base.Int.{pos}
use thunix.Shell.Numbers.{atoi, is_digits, atoi_lem}
use thunix.Shell.Typing.{type_keys, enter_command_lem}

abbrev two_words : Memory
two_words a =
    if a == 0 then 108 else if a == 1 then 115 else if a == 2 then 32 else if a == 3 then 120 else 0

two_words-AreWords : AreWords ((108 ∷ 115 ∷ []) ∷ (120 ∷ []) ∷ [])
two_words-AreWords = (
  (omega arith, omega arith, (omega arith, omega arith, tt)),
  omega arith,
  ((omega arith, omega arith, tt), omega arith, tt),
)

parse_command_lem_example :
    (m' : Memory) × (argv : List ℕ) × (parse_command 10 two_words 0 ≡ some (m', argv))
    × Args m' argv ((108 ∷ 115 ∷ []) ∷ (120 ∷ []) ∷ [])
parse_command_lem_example =
    parse_command_lem (108 ∷ 115 ∷ []) ((120 ∷ []) ∷ []) 10 two_words 0
      (refl, omega arith, (refl, omega arith, (refl, omega arith, (refl, omega arith, refl))))
      two_words-AreWords (omega arith) (omega arith)

abbrev keys : List ℕ
keys = 108 ∷ 99 ∷ 8 ∷ 115 ∷ 32 ∷ 120 ∷ []

abbrev fresh : Shell
fresh = record { index = 0; memory = λ a. 0 }

enter_command_lem_example :
    (s1 : Shell) × (s2 : Shell) × (m' : Memory) × (argv : List ℕ) × (type_keys 10 0 keys fresh
      ≡ some s1)
    × (enter_command 10 0 newline s1 ≡ some (turn s2 (some (m', argv))))
    × Args m' argv ((108 ∷ 115 ∷ []) ∷ (120 ∷ []) ∷ [])
    × (s2.index ≡ 0)
enter_command_lem_example =
    enter_command_lem 10 0 keys (108 ∷ 115 ∷ []) ((120 ∷ []) ∷ []) fresh refl
      (
        omega arith,
        omega arith,
        (
          omega arith,
          omega arith,
          (
            omega arith,
            omega arith,
            (omega arith, omega arith, (omega arith, omega arith, (omega arith, omega arith, tt))),
          ),
        ),
      )
      (omega arith) refl two_words-AreWords (omega arith) (omega arith)

-- "42" at 0
abbrev forty_two : Memory
forty_two a = if a == 0 then 52 else if a == 1 then 50 else 0

atoi_lem_example : (is_digits 3 forty_two 0 ≡ some true) × (atoi 3 forty_two 0 ≡ some (pos 42))
atoi_lem_example =
    atoi_lem (4 ∷ 2 ∷ []) 3 forty_two 0 (refl, omega arith, (refl, omega arith, refl))
      (omega arith, (omega arith, tt)) (omega arith) (omega arith)
