-- ===== src/Shell.antt =====
-- kernel/shell.c: a line is typed, cut into words, and its numbers are read. The commands themselves
-- print, or call what other files model.
pub mod Numbers
pub mod Typing
pub mod Words
mod Examples
use mathlib.Core.Option
use thunix.Base.{
  ℕ, zero, suc, ◌+◌, ◌-◌, ◌||◌, Option, none, some, List, [], ◌∷◌, leb, ◌==◌, if◌then◌else◌, Memory,
  store,
}
use thunix.Strings.{memset}

-- `MAX_OPTION`, and the characters
abbrev pub max_option : ℕ
max_option = 10

abbrev pub space : ℕ
space = 32

abbrev pub newline : ℕ
newline = 10

abbrev pub backspace : ℕ
backspace = 8

abbrev pub ctrl_c : ℕ
ctrl_c = 3

-- `while (*p && *p != ' ') p++;`
unfoldable pub word_end : ℕ → Memory → ℕ → Option ℕ
word_end zero m p = none
word_end (suc fuel) m p =
    let rest = word_end fuel m (p + 1) in if m p == 0 || m p == space then some p else rest

-- `while (*p && *p == ' ') p++;`
unfoldable pub over_spaces : ℕ → Memory → ℕ → Option ℕ
over_spaces zero m p = none
over_spaces (suc fuel) m p =
    let rest = over_spaces fuel m (p + 1) in if m p == space then rest else some p

-- a word and the spaces behind it
unfoldable pub next_word : ℕ → Memory → ℕ → Option ℕ
unfolding word_end over_spaces
next_word chars m p = elim (word_end chars m p) [ none ↦ none | some q ↦ over_spaces chars m q ]

-- the argument at `p` before what the rest of the loop finds
abbrev pub add_arg : ℕ → Memory × List ℕ → Memory × List ℕ
add_arg p (m, argv) = (m, p ∷ argv)

-- The loop of `parse_command`, at the end of a word: the memory, and the arguments that are left.
unfoldable pub args_from : ℕ → ℕ → Memory → ℕ → ℕ → Option (Memory × List ℕ)
unfolding next_word store
args_from chars zero m p argc = none
args_from chars (suc fuel) m p argc =
    let cut = store m p 0 in
    if m p == 0 || leb max_option argc then some (m, []) else elim (next_word chars cut (p + 1)) [
      | none ↦ none
      | some q ↦
          if cut q == 0
          then some (cut, (p + 1) ∷ [])
          else Option.map (add_arg (p + 1)) (args_from chars fuel cut (q - 1) (argc + 1))
    ]

-- `parse_command`, up to `run_command`: the memory, and `argv`, of which `argc` is the length
unfoldable pub parse_command : ℕ → Memory → ℕ → Option (Memory × List ℕ)
unfolding args_from word_end
parse_command chars m command = elim (word_end chars m command) [
  | none ↦ none
  | some p ↦ Option.map (add_arg command) (args_from chars max_option m p 1)
]

-- the size of `command_buffer`
abbrev pub buffer_size : ℕ
buffer_size = 512

-- `index`, and the memory that `command_buffer` lies in
pub record Shell : Type 0 where
  pub index : ℕ
  pub memory : Memory

-- What a key comes to: the shell, and what `run_command` is called with, if it is, which is the memory
-- and the arguments; or a byte written behind `command_buffer`, as nothing bounds `index`.
pub data Turn : Type 0 where
  turn : Shell → Option (Memory × List ℕ) → Turn
  overrun : Turn

module _ (chars command_buffer : ℕ) where
  -- `reset`
  unfoldable pub reset : Shell → Shell
  reset s = record { index = 0; memory = memset s.memory command_buffer 0 s.index }

  -- the end of a line
  unfoldable pub end_line : Shell → Option Turn
  unfolding reset store parse_command
  end_line s =
      let ended = store s.memory (command_buffer + s.index) 0 in
      if leb buffer_size s.index
      then some overrun
      else if s.index == 0
      then some (turn (reset (record s { memory = ended })) none)
      else elim (parse_command chars ended command_buffer) [
        | none ↦ none
        | some out ↦ some (turn (reset (record s { memory = out.0 })) (some out))
      ]

  -- `enter_command` with the key that `get_key` gives
  unfoldable pub enter_command : ℕ → Shell → Option Turn
  unfolding end_line
  enter_command key s =
      let typed = store s.memory (command_buffer + s.index) key in
      if key == newline
      then end_line s
      else if key == backspace
      then some (turn (if s.index == 0 then s else record s { index = s.index - 1 }) none)
      else if key == ctrl_c
      then some (turn (reset s) none)
      else if leb buffer_size s.index
      then some overrun
      else some (turn (record { index = s.index + 1; memory = typed }) none)
