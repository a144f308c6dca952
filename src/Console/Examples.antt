-- ===== src/Console/Examples.antt =====
-- kernel/console.c on a screen after `con_init`.
use thunix.Base.{
  ℕ, ◌+◌, ◌*◌, ◌%◌, ◌<◌, ◌≡◌, refl, true, false, ◌&&◌, List, [], ◌∷◌, arith, ◌==◌, if◌then◌else◌,
}
use thunix.Console.{Console, write_char, con_write, con_init, scrup}
use thunix.Console.Scroll.{IsConsole, Scrolled, shown, scrup_lem}
use thunix.Console.Write.{Sound}
use thunix.Console.Keys.{stays}
use thunix.Console.Text.{
  is_text, is_plain, con_write_text, write_char-shown, write_char-off_screen, con_init_lem,
}

-- a screen that has scrolled by four lines, the cursor at column 5 of its last line
abbrev screen : Console
screen = record {
  mem = λ a. a % 256;
  x = 5;
  y = 24;
  pos = 0xb8000 + 640 + 24 * 160 + 10;
  origin = 0xb8000 + 640;
  scr_end = 0xb8000 + 640 + 4000;
  top = 0;
  bottom = 25;
  saved_x = 0;
  saved_y = 0;
}

screen-IsConsole : IsConsole screen
screen-IsConsole = record {
  column = omega arith;
  line = omega arith;
  cursor = refl;
  low = omega arith;
  screen = refl;
  high = omega arith;
  all_lines = (refl, refl);
}

scrup_lem_example : Scrolled screen (scrup screen)
scrup_lem_example = scrup_lem screen screen-IsConsole

-- `Hi`, a new line, TAB and Backspace
abbrev some_text : List ℕ
some_text = 72 ∷ 105 ∷ 10 ∷ 9 ∷ 8 ∷ []

some_text-is_text : is_text some_text ≡ true
unfolding is_text
some_text-is_text = refl

plain_65 : is_plain 65 ≡ true
unfolding is_plain
plain_65 = refl

down_leaves : stays screen 0xe3 ≡ false
unfolding stays
down_leaves = refl

con_write_text_example : Sound screen (con_write screen some_text)
con_write_text_example = con_write_text some_text screen screen-IsConsole some_text-is_text

write_char-shown_example :
    let k' = write_char screen 65 in
    (k'.x ≡ 6)
    × (k'.y ≡ 24)
    × ((r i : ℕ)
        → r < 25
        → i < 160
        → shown k' r i ≡ (
            if (r == 24) && (i == 10)
            then 65
            else if (r == 24) && (i == 11)
            then 2
            else shown screen r i))
write_char-shown_example = write_char-shown screen 65 screen-IsConsole plain_65 (omega arith)

-- The key for down on the last line.
write_char-off_screen_example : ¬ IsConsole (write_char screen 0xe3)
write_char-off_screen_example = write_char-off_screen screen 0xe3 down_leaves

con_init_lem_example :
    Sound screen (con_init screen) × ((con_init screen).x ≡ 0) × ((con_init screen).y ≡ 0)
con_init_lem_example = con_init_lem screen
