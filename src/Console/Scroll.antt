-- ===== src/Console/Scroll.antt =====
-- kernel/console.c: when the screen is well formed, and what scrolling does to it.
use thunix.Base.{
  ℕ, zero, suc, ◌+◌, ◌-◌, ◌*◌, ◌/◌, ◌%◌, ◌^◌, ◌≤◌, ◌<◌, ◌≡◌, refl, ◌∙◌, ◌⊎◌, inl, inr, true, ◌&&◌,
  arith, ltb, ◌==◌, if◌then◌else◌, Bool-cases, Memory, store, store16, u8, u32,
}
use thunix.Strings.{memset_word, memcpy, copy_down}
use thunix.Strings.Blocks.{within, copied, memset_word_lem, memcpy_lem, copy_down_lem}
use thunix.Console.{
  Console, video_num_columns, video_size_row, video_num_lines, video_erase_char, video_mem_start,
  video_mem_end, sub32, wrap_origin, erase_last, scrup, scrdown, stosw_down,
}

-- The screen lies in video memory, nothing limits the lines that scroll, and `pos` is the address of
-- the cursor, which stands on the screen or behind the end of its line.
pub record IsConsole (k : Console) : Type 0 where
  pub column : k.x ≤ video_num_columns
  pub line : k.y < video_num_lines
  pub cursor : k.pos ≡ k.origin + video_size_row * k.y + 2 * k.x
  pub low : video_mem_start ≤ k.origin
  pub screen : k.scr_end ≡ k.origin + 4000
  pub high : k.scr_end ≤ video_mem_end
  pub all_lines : (k.top ≡ 0) × (k.bottom ≡ video_num_lines)

-- the byte with number `i` in line `r` of the screen
unfoldable pub shown : Console → ℕ → ℕ → ℕ
shown k r i = k.mem (k.origin + video_size_row * r + i)

-- a byte of an erased line
abbrev pub erased : ℕ → ℕ
erased i = if i % 2 == 0 then 0x20 else 0x07

abbrev pub Outside : ℕ → Type 0
Outside a = (a < video_mem_start) ⊎ (video_mem_end ≤ a)

-- The screen is well formed, the cursor is where it was, and memory has not changed elsewhere.
pub record Keeps (k k' : Console) : Type 0 where
  pub sound : IsConsole k'
  pub same_x : k'.x ≡ k.x
  pub same_y : k'.y ≡ k.y
  pub elsewhere : (a : ℕ) → Outside a → k'.mem a ≡ k.mem a

-- `scrup` where the screen moves on in video memory
slide : Console → Console
slide k = record k {
  origin = k.origin + 160;
  pos = k.pos + 160;
  scr_end = k.scr_end + 160;
  mem = memset_word k.mem k.scr_end video_erase_char 80;
}

-- `scrup` where it moves back to the start
rewind : Console → Console
rewind k = record k {
  origin = video_mem_start;
  pos = k.pos + 160 - (k.origin + 160 - video_mem_start);
  scr_end = video_mem_start + 4000;
  mem =
      memset_word (memcpy k.mem video_mem_start (k.origin + 160) 3840) (video_mem_start + 3840)
        video_erase_char 80;
}

scrup-cases :
    (k : Console)
    → IsConsole k
    → ((k.scr_end + 160 ≤ video_mem_end) × (scrup k ≡ slide k))
      ⊎ ((video_mem_end < k.scr_end + 160) × (scrup k ≡ rewind k))
unfolding scrup wrap_origin erase_last slide rewind
scrup-cases k h = elim (Bool-cases (ltb video_mem_end (k.scr_end + 160))) [
  | inr t ↦ inl (ground arith, rw (all, to_origin, to_pos, to_end, t, last) refl)
  | inl t ↦
      inr (ground arith, rw (all, to_origin, to_pos, to_end, t, back_end, back_pos, last_back) refl)
]
  where
    all : ((k.top == 0) && (k.bottom == video_num_lines)) ≡ true
    all = ground (arith, h.all_lines)

    to_origin : u32 (k.origin + 160) ≡ k.origin + 160
    to_origin = omega (arith, h.low, h.screen, h.high)

    to_pos : u32 (k.pos + 160) ≡ k.pos + 160
    to_pos = omega (arith, h.cursor, h.line, h.column, h.screen, h.high)

    to_end : u32 (k.scr_end + 160) ≡ k.scr_end + 160
    to_end = omega (arith, h.high)

    last : sub32 (k.scr_end + 160) 160 ≡ k.scr_end
    last = omega (arith, h.high)

    back_end :
        sub32 (k.scr_end + 160) (sub32 (k.origin + 160) video_mem_start) ≡ video_mem_start + 4000
    back_end = omega (arith, h.low, h.screen, h.high)

    back_pos :
        sub32 (k.pos + 160) (sub32 (k.origin + 160) video_mem_start)
        ≡ k.pos + 160 - (k.origin + 160 - video_mem_start)
    back_pos = omega (arith, h.cursor, h.line, h.column, h.low, h.screen, h.high)

    last_back : sub32 (video_mem_start + 4000) 160 ≡ video_mem_start + 3840
    last_back = refl

-- what `scrup` does to a screen: see `scrup_lem`
pub record Scrolled (k k' : Console) : Type 0 where
  pub keeps : Keeps k k'
  pub lines :
      (r i : ℕ)
      → r < video_num_lines
      → i < video_size_row
      → shown k' r i ≡ (if ltb r 24 then shown k (r + 1) i else erased i)

slide-Scrolled :
    (k : Console) → IsConsole k → k.scr_end + 160 ≤ video_mem_end → Scrolled k (slide k)
unfolding slide shown
slide-Scrolled k h room = record {
  keeps = record {
    sound = record {
      column = h.column;
      line = h.line;
      cursor = omega (arith, h.cursor);
      low = omega (arith, h.low);
      screen = omega (arith, h.screen);
      high = room;
      all_lines = h.all_lines;
    };
    same_x = refl;
    same_y = refl;
    elsewhere = λ a out.
        ground (arith, memset_word_lem 80 k.mem k.scr_end video_erase_char a, h.low, h.screen);
  };
  lines = λ r i hr hi. ground (
    arith,
    h.screen,
    memset_word_lem 80 k.mem k.scr_end video_erase_char (k.origin + 160 + 160 * r + i),
  );
}

rewind-Scrolled :
    (k : Console) → IsConsole k → video_mem_end < k.scr_end + 160 → Scrolled k (rewind k)
unfolding rewind shown
rewind-Scrolled k h full = record {
  keeps = record {
    sound = record {
      column = h.column;
      line = h.line;
      cursor = omega (arith, h.cursor, h.low, h.screen);
      low = omega arith;
      screen = refl;
      high = omega arith;
      all_lines = h.all_lines;
    };
    same_x = refl;
    same_y = refl;
    elsewhere = λ a out. ground (
      arith,
      h.low,
      memset_word_lem 80 (memcpy k.mem video_mem_start (k.origin + 160) 3840) 757504
          video_erase_char a,
      memcpy_lem k.mem video_mem_start (k.origin + 160) 3840 a (inl (omega (arith, h.low))),
    );
  };
  lines = λ r i hr hi. ground (
    arith,
    h.low,
    memset_word_lem 80 (memcpy k.mem video_mem_start (k.origin + 160) 3840) 757504 video_erase_char
        (video_mem_start + 160 * r + i),
    memcpy_lem k.mem video_mem_start (k.origin + 160) 3840 (video_mem_start + 160 * r + i)
        (inl (omega (arith, h.low))),
  );
}

-- On a well-formed screen, `scrup` moves every line up by one, erases the last, leaves the screen
-- well formed with the cursor where it was, and changes nothing outside video memory.
pub scrup_lem : (k : Console) → IsConsole k → Scrolled k (scrup k)
scrup_lem k h = elim (scrup-cases k h) [
  | inl (room, e) ↦ rw e (slide-Scrolled k h room)
  | inr (full, e) ↦ rw e (rewind-Scrolled k h full)
]

-- `rep stosw` downwards to the word at `b` leaves what `memset_word` from `b` on does.
stosw_down_lem :
    (count : ℕ) (m : Memory) (b word x : ℕ)
    → stosw_down m (b + 2 * count - 2) word count x ≡ (
        if within b (2 * count) x
        then (if (x - b) % 2 == 0 then u8 word else u8 (word / 2 ^ 8))
        else m x)
unfolding stosw_down store16 store
stosw_down_lem zero m b word x = ground arith
stosw_down_lem (suc count) m b word x =
    rw here (ground (arith, stosw_down_lem count (store16 m (b + 2 * count) word) b word x))
  where
    here : b + 2 * suc count - 2 ≡ b + 2 * count
    here = omega arith

-- `scrdown` of a well-formed screen
scrdown-full :
    (k : Console)
    → IsConsole k
    → scrdown k ≡ record k {
      mem =
          stosw_down
            (copy_down k.mem (k.origin + 160 + 3840) (k.origin + 3840) 3840)
            (k.origin + 2 * 80 - 2)
            video_erase_char
            80;
    }
unfolding scrdown
scrdown-full k h = rw (longs, dest, src, words) refl
  where
    longs : sub32 (sub32 k.bottom k.top) 1 * 80 / 2 ≡ 960
    longs = omega (arith, h.all_lines)

    dest : k.origin + 160 * k.bottom - 4 + 4 ≡ k.origin + 160 + 3840
    dest = omega (arith, h.all_lines)

    src : k.origin + 160 * (k.bottom - 1) - 4 + 4 ≡ k.origin + 3840
    src = omega (arith, h.all_lines)

    words : k.origin + 160 * k.bottom - 4 - 4 * 960 + 2 ≡ k.origin + 160 - 2
    words = omega (arith, h.all_lines)

-- On a well-formed screen, `scrdown` moves every line down by one, erases the first, leaves the
-- screen well formed with the cursor where it was, and changes nothing outside video memory.
pub scrdown_lem :
    (k : Console)
    → IsConsole k
    → Keeps k (scrdown k)
      × ((r i : ℕ)
          → r < video_num_lines
          → i < video_size_row
          → shown (scrdown k) r i ≡ (if r == 0 then erased i else shown k (r - 1) i))
unfolding shown
scrdown_lem k h = rw (scrdown-full k h) (
  record {
    sound = record {
      column = h.column;
      line = h.line;
      cursor = h.cursor;
      low = h.low;
      screen = h.screen;
      high = h.high;
      all_lines = h.all_lines;
    };
    same_x = refl;
    same_y = refl;
    elsewhere = λ a out. ground (arith, after a, h.low, h.screen, h.high);
  },
  λ r i hr hi. ground (arith, after (k.origin + 160 * r + i)),
)
  where
    after :
        (a : ℕ)
        → stosw_down
            (copy_down k.mem (k.origin + 160 + 3840) (k.origin + 3840) 3840)
            (k.origin + 2 * 80 - 2)
            video_erase_char
            80
            a
          ≡ (if within k.origin 160 a
              then (if (a - k.origin) % 2 == 0 then 0x20 else 0x07)
              else copied k.mem (k.origin + 160) k.origin 3840 a)
    after a =
        stosw_down_lem 80 (copy_down k.mem (k.origin + 160 + 3840) (k.origin + 3840) 3840) k.origin
          video_erase_char a
        ∙ ground (arith, copy_down_lem 3840 k.mem (k.origin + 160) k.origin a (omega arith))
