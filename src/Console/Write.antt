-- ===== src/Console/Write.antt =====
-- kernel/console.c: the control characters keep the screen well formed.
use thunix.Base.{
  ℕ, ◌+◌, ◌-◌, ◌*◌, ◌%◌, ◌≤◌, ◌≡◌, refl, ap, ◌∙◌, inl, inr, arith, ltb, ◌==◌, Bool-cases, u32,
  store16_ne,
}
use thunix.Console.{Console, video_erase_char, sub32, scrup, lf, cr, del, tab}
use thunix.Console.Scroll.{IsConsole, Keeps, Outside, scrup_lem}

-- The screen is well formed, and memory has changed in video memory alone.
pub record Sound (k k' : Console) : Type 0 where
  pub sound : IsConsole k'
  pub elsewhere : (a : ℕ) → Outside a → k'.mem a ≡ k.mem a

pub Sound-trans : (k k1 k2 : Console) → Sound k k1 → Sound k1 k2 → Sound k k2
Sound-trans k k1 k2 s t = record {
  sound = t.sound;
  elsewhere = λ a out. t.elsewhere a out ∙ s.elsewhere a out;
}

pub Keeps-Sound : (k k' : Console) → Keeps k k' → Sound k k'
Keeps-Sound k k' s = record { sound = s.sound; elsewhere = s.elsewhere }

-- a change that leaves memory alone
pub moved : (k k' : Console) → k'.mem ≡ k.mem → IsConsole k' → Sound k k'
moved k k' e h = record { sound = h; elsewhere = λ a out. ap (λ m. m a) e }

pub cr-Sound : (k : Console) → IsConsole k → Sound k (cr k)
unfolding cr
cr-Sound k h = moved k _ refl (record {
  column = omega arith;
  line = h.line;
  cursor = omega (arith, h.cursor, h.column, h.screen, h.high, h.line);
  low = h.low;
  screen = h.screen;
  high = h.high;
  all_lines = h.all_lines;
})

pub lf-Sound : (k : Console) → IsConsole k → Sound k (lf k)
unfolding lf
lf-Sound k h = elim (Bool-cases (ltb (k.y + 1) k.bottom)) [
  | inl e ↦ rw e (
      moved k _ refl (record {
        column = h.column;
        line = ground (arith, h.all_lines);
        cursor = ground (arith, h.cursor, h.column, h.screen, h.high, h.line);
        low = h.low;
        screen = h.screen;
        high = h.high;
        all_lines = h.all_lines;
      }))
  | inr e ↦ rw e (Keeps-Sound k (scrup k) (scrup_lem k h).keeps)
]

-- the column that `lf` leaves as it was
pub lf-x : (k : Console) → IsConsole k → (lf k).x ≡ k.x
unfolding lf
lf-x k h = elim (Bool-cases (ltb (k.y + 1) k.bottom)) [
  | inl e ↦ rw e refl
  | inr e ↦ rw e (scrup_lem k h).keeps.same_x
]

-- a column from 80 on taken back to the start of the line
pub back_a_line :
    (k : Console) (x pos : ℕ)
    → IsConsole k
    → 80 ≤ x
    → x ≤ 160
    → pos ≡ k.origin + 160 * k.y + 2 * x
    → IsConsole (record k { x = x - 80; pos = sub32 pos 160 })
back_a_line k x pos h low high e = record {
  column = omega arith;
  line = h.line;
  cursor = omega (arith, e, h.screen, h.high, h.line);
  low = h.low;
  screen = h.screen;
  high = h.high;
  all_lines = h.all_lines;
}

pub lf-moved : (k k' : Console) → k'.mem ≡ k.mem → IsConsole k' → Sound k (lf k')
lf-moved k k' e h = Sound-trans k k' (lf k') (moved k k' e h) (lf-Sound k' h)

pub tab-Sound : (k : Console) → IsConsole k → Sound k (tab k)
unfolding tab
tab-Sound k h =
    rw (to_x, to_pos)
      (elim (Bool-cases (ltb 80 (k.x + (8 - k.x % 8)))) [
        | inl e ↦ rw e (
            lf-moved k _ refl (
              back_a_line k (k.x + (8 - k.x % 8)) _ h (ground arith) (omega (arith, h.column))
                (omega (arith, h.cursor, h.column))))
        | inr e ↦ rw e (
            moved k _ refl (record {
              column = ground arith;
              line = h.line;
              cursor = omega (arith, h.cursor, h.column);
              low = h.low;
              screen = h.screen;
              high = h.high;
              all_lines = h.all_lines;
            }))
      ])
  where
    to_x : u32 (k.x + (8 - k.x % 8)) ≡ k.x + (8 - k.x % 8)
    to_x = omega (arith, h.column)

    to_pos : u32 (k.pos + (8 - k.x % 8) * 2) ≡ k.pos + (8 - k.x % 8) * 2
    to_pos = omega (arith, h.cursor, h.column, h.screen, h.high, h.line)

pub del-Sound : (k : Console) → IsConsole k → Sound k (del k)
unfolding del
del-Sound k h = elim (Bool-cases (k.x == 0)) [
  | inl e ↦ rw e (moved k k refl h)
  | inr e ↦ rw e (record {
    sound = record {
      column = omega (arith, h.column);
      line = h.line;
      cursor = ground (arith, h.cursor, h.column, h.screen, h.high, h.line);
      low = h.low;
      screen = h.screen;
      high = h.high;
      all_lines = h.all_lines;
    };
    elsewhere = λ a out.
        store16_ne k.mem (sub32 k.pos 2) video_erase_char a
          (ground (arith, out, h.cursor, h.column, h.low, h.screen, h.high, h.line));
  })
]
