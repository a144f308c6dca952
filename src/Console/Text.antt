-- ===== src/Console/Text.antt =====
-- kernel/console.c: where a character appears, what `con_init` leaves, and the keys that leave the
-- screen.
use thunix.Base.{
  ℕ, zero, suc, ◌+◌, ◌*◌, ◌≤◌, ◌<◌, ◌≡◌, refl, ◌⊎◌, inl, inr, Bool, true, false, ◌&&◌, ◌||◌, not,
  List, [], ◌∷◌, arith, leb, ◌==◌, if◌then◌else◌, store,
}
use thunix.Console.{
  Console, video_num_columns, video_size_row, video_num_lines, video_mem_start, gotoxy, down, left,
  right, wrap_line, show_char, special_key, write_char, con_write, blanks, cls, con_init,
}
use thunix.Console.Scroll.{IsConsole, shown}
use thunix.Console.Write.{Sound, Sound-trans, moved}
use thunix.Console.Keys.{stays, all_stay, con_write-Sound, gotoxy-Sound}

-- A byte that is no control character and no key.
unfoldable pub is_plain : ℕ → Bool
is_plain c = not (((leb 7 c && leb c 13) || (c == 127)) || (leb 0xe0 c && leb c 0xe9))

-- no key for down, left or right
unfoldable pub is_text : List ℕ → Bool
is_text [] = true
is_text (c ∷ buf) = not (leb 0xe3 c && leb c 0xe5) && is_text buf

text-all_stay : (buf : List ℕ) (k : Console) → is_text buf ≡ true → all_stay k buf ≡ true
unfolding is_text all_stay stays
text-all_stay [] k h = refl
text-all_stay (c ∷ buf) k h = ground (arith, text-all_stay buf (write_char k c))

-- From a well-formed screen, `con_write` of bytes that are no key for down, left or right keeps the
-- screen well formed and changes nothing outside video memory.
pub con_write_text :
    (buf : List ℕ) (k : Console) → IsConsole k → is_text buf ≡ true → Sound k (con_write k buf)
con_write_text buf k h t = con_write-Sound buf k h (text-all_stay buf k t)

plain-show_char :
    (k : Console) (c : ℕ) → is_plain c ≡ true → k.x < 80 → write_char k c ≡ show_char k c
unfolding is_plain write_char wrap_line
plain-show_char k c p room = ground arith

-- On a well-formed screen with room on the cursor's line, a plain character appears at the cursor,
-- the rest of the screen stays, and the cursor moves on by one column.
pub write_char-shown :
    (k : Console) (c : ℕ)
    → IsConsole k
    → is_plain c ≡ true
    → k.x < video_num_columns
    → let k' = write_char k c in
      (k'.x ≡ k.x + 1)
      × (k'.y ≡ k.y)
      × ((r i : ℕ)
          → r < video_num_lines
          → i < video_size_row
          → shown k' r i ≡ (
              if (r == k.y) && (i == 2 * k.x)
              then c
              else if (r == k.y) && (i == 2 * k.x + 1)
              then 2
              else shown k r i))
unfolding show_char shown store
write_char-shown k c h p room =
    rw (plain-show_char k c p room)
      (omega arith, refl, λ r i hr hi. ground (arith, h.cursor, h.line, h.screen, h.high))

off-down : (k : Console) → k.y ≡ 24 → video_num_lines ≤ (write_char k 0xe3).y
unfolding write_char special_key down gotoxy
off-down k y = ground arith

off-left : (k : Console) → k.x ≡ 0 → k.y ≡ 0 → video_num_lines ≤ (write_char k 0xe4).y
unfolding write_char special_key left gotoxy
off-left k x y = ground arith

off-right : (k : Console) → k.x ≡ 80 → k.y ≡ 24 → video_num_lines ≤ (write_char k 0xe5).y
unfolding write_char special_key right gotoxy
off-right k x y = ground arith

off_keys :
    (k : Console) (c : ℕ)
    → stays k c ≡ false
    → ((c ≡ 0xe3) × (k.y ≡ 24))
      ⊎ (((c ≡ 0xe4) × (k.x ≡ 0) × (k.y ≡ 0)) ⊎ ((c ≡ 0xe5) × (k.x ≡ 80) × (k.y ≡ 24)))
unfolding stays
off_keys k c s = ground arith

-- Where the cursor does not stay on the screen, the screen is not well formed afterwards: the line of
-- the cursor is past the last.
pub write_char-off_screen : (k : Console) (c : ℕ) → stays k c ≡ false → ¬ IsConsole (write_char k c)
write_char-off_screen k c s after = elim (off_keys k c s) [
  | inl (e, y) ↦ absurd (omega (arith, off-down k y, rw e at after.line))
  | inr (inl (e, x, y)) ↦ absurd (omega (arith, off-left k x y, rw e at after.line))
  | inr (inr (e, x, y)) ↦ absurd (omega (arith, off-right k x y, rw e at after.line))
]

blanks-Sound : (left : ℕ) (k : Console) → IsConsole k → Sound k (blanks left k)
unfolding blanks is_text
blanks-Sound zero k h = moved k k refl h
blanks-Sound (suc left) k h =
    let first = con_write_text (32 ∷ []) k h refl in
    Sound-trans k _ _ first (blanks-Sound left (con_write k (32 ∷ [])) first.sound)

cls-Sound : (k : Console) → IsConsole k → Sound k (cls k)
unfolding cls
cls-Sound k h =
    let blank = blanks-Sound 2000 k h in
    Sound-trans k _ _ blank (
      gotoxy-Sound (blanks 2000 k) (blanks 2000 k) 0 0 blank.sound refl refl refl (refl, refl)
        (omega arith) (omega arith))

-- Whatever the statics held before, `con_init` leaves a well-formed screen with the cursor at its
-- start, and changes nothing outside video memory.
pub con_init_lem :
    (k : Console) → Sound k (con_init k) × ((con_init k).x ≡ 0) × ((con_init k).y ≡ 0)
unfolding con_init gotoxy
con_init_lem k = (
  Sound-trans k start _ (moved k start refl start-IsConsole) (
      Sound-trans start (cls start) _ cleared (
        gotoxy-Sound (cls start) (cls start) 0 0 cleared.sound refl refl refl (refl, refl)
          (omega arith) (omega arith))),
  refl,
  refl,
)
  where
    start : Console
    start =
        gotoxy
          (record k {
            origin = video_mem_start;
            scr_end = video_mem_start + video_num_lines * video_size_row;
            top = 0;
            bottom = video_num_lines;
          })
          0 0

    start-IsConsole : IsConsole start
    start-IsConsole = record {
      column = omega arith;
      line = omega arith;
      cursor = refl;
      low = omega arith;
      screen = refl;
      high = omega arith;
      all_lines = (refl, refl);
    }

    cleared : Sound start (cls start)
    cleared = cls-Sound start start-IsConsole
