-- ===== src/Console/Keys.antt =====
-- kernel/console.c: `con_write` keeps the screen well formed, unless a cursor key leaves it.
use thunix.Base.{
  ℕ, ◌+◌, ◌-◌, ◌≤◌, ◌<◌, ◌≡◌, refl, ◌∙◌, ◌⊎◌, inl, inr, Bool, true, false, ◌&&◌, ◌||◌, not, List,
  [], ◌∷◌, arith, ltb, leb, ◌==◌, Bool-cases, if-cases, store, u32,
}
use thunix.Console.{
  Console, video_num_columns, video_num_lines, sub32, scrdown, gotoxy, cr, home, end, up, down,
  left, right, wrap_line, show_char, special_key, write_char, con_write,
}
use thunix.Console.Scroll.{IsConsole, scrdown_lem}
use thunix.Console.Write.{
  Sound, Sound-trans, Keeps-Sound, moved, back_a_line, cr-Sound, lf-Sound, lf-x, lf-moved,
  tab-Sound, del-Sound,
}

-- `gotoxy` to a place on the screen of `k`, whatever `x`, `y` and `pos` were
pub gotoxy-Sound :
    (k k1 : Console) (new_x new_y : ℕ)
    → IsConsole k
    → k1.mem ≡ k.mem
    → k1.origin ≡ k.origin
    → k1.scr_end ≡ k.scr_end
    → (k1.top ≡ k.top) × (k1.bottom ≡ k.bottom)
    → new_x ≤ video_num_columns
    → new_y < video_num_lines
    → Sound k (gotoxy k1 new_x new_y)
unfolding gotoxy
gotoxy-Sound k k1 new_x new_y h e o s t hx hy = rw allowed (
    moved k _ e (record {
      column = hx;
      line = hy;
      cursor = omega (arith, o, h.screen, h.high);
      low = omega (arith, o, h.low);
      screen = omega (arith, o, s, h.screen);
      high = omega (arith, s, h.high);
      all_lines = (t.0 ∙ h.all_lines.0, t.1 ∙ h.all_lines.1);
    }))
  where
    allowed : (ltb video_num_columns new_x || leb video_num_lines new_y) ≡ false
    allowed = ground arith

home-Sound : (k : Console) → IsConsole k → Sound k (home k)
unfolding home
home-Sound k h = gotoxy-Sound k _ 0 k.y h refl refl refl (refl, refl) (omega arith) h.line

end-Sound : (k : Console) → IsConsole k → Sound k (end k)
unfolding end
end-Sound k h = gotoxy-Sound k _ 79 k.y h refl refl refl (refl, refl) (omega arith) h.line

up-Sound : (k : Console) → IsConsole k → Sound k (up k)
unfolding up
up-Sound k h = elim (Bool-cases (k.y == 0)) [
  | inr e ↦ rw e (
      gotoxy-Sound k _ k.x (k.y - 1) h refl refl refl (refl, refl) h.column (omega (arith, h.line)))
  | inl e ↦ rw e (
      Sound-trans k (scrdown k) _ (Keeps-Sound k (scrdown k) (scrdown_lem k h).0) (
        gotoxy-Sound (scrdown k) _ k.x 0 (scrdown_lem k h).0.sound refl refl refl (refl, refl)
          h.column (omega arith)))
]

-- Whether the byte `c` keeps the cursor on the screen: the keys for down, left and right may take
-- it off the end or the start of the last and first line.
unfoldable pub stays : Console → ℕ → Bool
stays k c = not (
    ((c == 0xe3) && (k.y == 24))
    || ((c == 0xe4) && ((k.x == 0) && (k.y == 0)))
    || ((c == 0xe5) && ((k.x == 80) && (k.y == 24))))

down-Sound : (k : Console) → IsConsole k → k.y < 24 → Sound k (down k)
unfolding down
down-Sound k h low =
    rw (above, to_y)
      (gotoxy-Sound k _ k.x (k.y + 1) h refl refl refl (refl, refl) h.column (omega arith))
  where
    above : (k.y == 25) ≡ false
    above = ground arith

    to_y : u32 (k.y + 1) ≡ k.y + 1
    to_y = omega arith

left-Sound : (k : Console) → IsConsole k → (0 < k.x) ⊎ (0 < k.y) → Sound k (left k)
unfolding left
left-Sound k h some_place = elim (Bool-cases (k.x == 0)) [
  | inl e ↦
      rw (e, to_y (ground arith))
        (gotoxy-Sound k _ 80 (k.y - 1) h refl refl refl (refl, refl) (omega arith)
          (omega (arith, h.line)))
  | inr e ↦ rw e (
      gotoxy-Sound k _ (k.x - 1) k.y h refl refl refl (refl, refl) (omega (arith, h.column)) h.line)
]
  where
    to_y : 0 < k.y → sub32 k.y 1 ≡ k.y - 1
    to_y some_line = omega (arith, h.line)

right-Sound : (k : Console) → IsConsole k → (k.x < 80) ⊎ (k.y < 24) → Sound k (right k)
unfolding right
right-Sound k h some_place = elim (Bool-cases (k.x == 80)) [
  | inl e ↦
      rw (e, to_y)
        (gotoxy-Sound k _ 0 (k.y + 1) h refl refl refl (refl, refl) (omega arith) (ground arith))
  | inr e ↦
      rw (e, to_x)
        (gotoxy-Sound k _ (k.x + 1) k.y h refl refl refl (refl, refl) (ground (arith, h.column))
          h.line)
]
  where
    to_y : u32 (k.y + 1) ≡ k.y + 1
    to_y = omega (arith, h.line)

    to_x : u32 (k.x + 1) ≡ k.x + 1
    to_x = omega (arith, h.column)

special_key-Sound :
    (k : Console) (c : ℕ) → IsConsole k → stays k c ≡ true → Sound k (special_key k c)
unfolding special_key stays
special_key-Sound k c h s =
    if-cases (Sound k) (c == 0xe0) (λ e. home-Sound k h)
      (λ e0.
        if-cases (Sound k) (c == 0xe1) (λ e. end-Sound k h)
          (λ e1.
            if-cases (Sound k) (c == 0xe2) (λ e. up-Sound k h)
              (λ e2.
                if-cases (Sound k) (c == 0xe3) (λ e. down-Sound k h (ground (arith, h.line)))
                  (λ e3.
                    if-cases (Sound k) (c == 0xe4) (λ e. left-Sound k h (ground (arith, h.line)))
                      (λ e4.
                        if-cases (Sound k) (c == 0xe5)
                          (λ e. right-Sound k h (ground (arith, h.line, h.column)))
                          (λ e5. moved k k refl h))))))

wrap_line-Sound : (k : Console) → IsConsole k → Sound k (wrap_line k)
unfolding wrap_line
wrap_line-Sound k h =
    if-cases (Sound k) (leb 80 k.x)
      (λ e. lf-moved k _ refl (
        back_a_line k k.x k.pos h (ground arith) (omega (arith, h.column))
          (omega (arith, h.cursor))))
      (λ e. moved k k refl h)

-- There is room for a character on the line then.
wrap_line-x : (k : Console) → IsConsole k → (wrap_line k).x < 80
unfolding wrap_line
wrap_line-x k h =
    if-cases (λ (k' : Console). k'.x < 80) (leb 80 k.x)
      (λ e.
        rw
          (lf-x _ (
            back_a_line k k.x k.pos h (ground arith) (omega (arith, h.column))
              (omega (arith, h.cursor))))
          (omega (arith, h.column)))
      (λ e. ground arith)

show_char-Sound : (k : Console) (c : ℕ) → IsConsole k → k.x < 80 → Sound k (show_char k c)
unfolding show_char store
show_char-Sound k c h room = record {
  sound = record {
    column = omega arith;
    line = h.line;
    cursor = omega (arith, h.cursor, h.line, h.screen, h.high);
    low = h.low;
    screen = h.screen;
    high = h.high;
    all_lines = h.all_lines;
  };
  elsewhere = λ a out. ground (arith, h.cursor, h.line, h.screen, h.high, h.low, out);
}

printed-Sound : (k : Console) (c : ℕ) → IsConsole k → Sound k (show_char (wrap_line k) c)
printed-Sound k c h =
    Sound-trans k (wrap_line k) _ (wrap_line-Sound k h)
      (show_char-Sound (wrap_line k) c (wrap_line-Sound k h).sound (wrap_line-x k h))

-- Every byte for which the cursor stays on the screen leaves the screen well formed, and changes
-- nothing outside video memory.
pub write_char-Sound :
    (k : Console) (c : ℕ) → IsConsole k → stays k c ≡ true → Sound k (write_char k c)
unfolding write_char
write_char-Sound k c h s =
    if-cases (Sound k) (leb 10 c && leb c 13)
      (λ e. Sound-trans k (cr k) _ (cr-Sound k h) (lf-Sound (cr k) (cr-Sound k h).sound))
      (λ e0.
        if-cases (Sound k) (c == 127) (λ e. del-Sound k h)
          (λ e1.
            if-cases (Sound k) (c == 8) (λ e. del-Sound k h)
              (λ e2.
                if-cases (Sound k) (c == 9) (λ e. tab-Sound k h)
                  (λ e3.
                    if-cases (Sound k) (c == 7) (λ e. moved k k refl h)
                      (λ e4.
                        if-cases (Sound k) (leb 0xe0 c && leb c 0xe9)
                          (λ e. special_key-Sound k c h s) (λ e5. printed-Sound k c h))))))

-- the bytes at which the cursor stays on the screen, one after the other
unfoldable pub all_stay : Console → List ℕ → Bool
all_stay k [] = true
all_stay k (c ∷ buf) = stays k c && all_stay (write_char k c) buf

-- `con_write` of bytes at which the cursor stays on the screen, such as any text without cursor keys,
-- keeps the screen well formed and changes nothing outside video memory.
pub con_write-Sound :
    (buf : List ℕ) (k : Console) → IsConsole k → all_stay k buf ≡ true → Sound k (con_write k buf)
unfolding con_write all_stay
con_write-Sound [] k h s = moved k k refl h
con_write-Sound (c ∷ buf) k h s =
    let first = write_char-Sound k c h (ground (arith, s)) in
    Sound-trans k (write_char k c) _ first
      (con_write-Sound buf (write_char k c) first.sound (ground (arith, s)))
