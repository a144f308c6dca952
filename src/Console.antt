-- ===== src/Console.antt =====
-- kernel/console.c and include/console.h: the text screen in video memory, and the cursor. The
-- statics that only `con_init` sets are constants; the ports, which show the cursor and the origin
-- to the display, are left out.
mod Examples
pub mod Keys
pub mod Scroll
pub mod Text
pub mod Write
use thunix.Base.{
  ℕ, zero, suc, ◌+◌, ◌-◌, ◌*◌, ◌/◌, ◌%◌, ◌^◌, ◌&&◌, ◌||◌, List, [], ◌∷◌, ltb, leb, ◌==◌,
  if◌then◌else◌, Memory, store, load16, store16, u32,
}
use thunix.Strings.{memset_word, memcpy, copy_up, copy_down}

abbrev pub video_num_columns : ℕ
video_num_columns = 80

abbrev pub video_size_row : ℕ
video_size_row = 160

abbrev pub video_num_lines : ℕ
video_num_lines = 25

abbrev pub video_size_all : ℕ
video_size_all = 4000

abbrev pub video_erase_char : ℕ
video_erase_char = 0x0720

abbrev pub video_mem_start : ℕ
video_mem_start = 0xb8000

abbrev pub video_mem_end : ℕ
video_mem_end = 0xba000

-- the statics that change, and memory
pub record Console : Type 0 where
  pub mem : Memory
  pub x : ℕ
  pub y : ℕ
  pub pos : ℕ
  pub origin : ℕ
  pub scr_end : ℕ
  pub top : ℕ
  pub bottom : ℕ
  pub saved_x : ℕ
  pub saved_y : ℕ

-- a difference of two `unsigned long`
abbrev pub sub32 : ℕ → ℕ → ℕ
sub32 a b = (a + 2 ^ 32 - b) % 2 ^ 32

unfoldable pub gotoxy : Console → ℕ → ℕ → Console
gotoxy k new_x new_y =
    if ltb video_num_columns new_x || leb video_num_lines new_y then k else record k {
      x = new_x;
      y = new_y;
      pos = u32 (k.origin + new_y * video_size_row + new_x * 2);
    }

-- the first branch of `scrup`, after `origin`, `pos` and `scr_end` have moved on by a row
wrap_origin : Console → Console
wrap_origin k =
    if ltb video_mem_end k.scr_end
    then record k {
      mem = memcpy k.mem video_mem_start k.origin ((video_num_lines - 1) * video_size_row);
      scr_end = sub32 k.scr_end (sub32 k.origin video_mem_start);
      pos = sub32 k.pos (sub32 k.origin video_mem_start);
      origin = video_mem_start;
    }
    else k

-- the last line erased
erase_last : Console → Console
erase_last k = record k {
  mem = memset_word k.mem (sub32 k.scr_end video_size_row) video_erase_char video_num_columns;
}

-- the second branch: `rep movsl` upwards over `longs` words of four bytes, then `rep stosw`
scroll_up_region : Console → Console
scroll_up_region k =
    let longs = sub32 (sub32 k.bottom k.top) 1 * video_num_columns / 2 in
    let dest = k.origin + video_size_row * k.top in
    record k {
      mem =
          memset_word (copy_up k.mem dest (k.origin + video_size_row * (k.top + 1)) (4 * longs))
            (dest + 4 * longs) video_erase_char video_num_columns;
    }

pub scrup : Console → Console
unfolding wrap_origin erase_last scroll_up_region
scrup k =
    if (k.top == 0) && (k.bottom == video_num_lines)
    then erase_last (
        wrap_origin (record k {
          origin = u32 (k.origin + video_size_row);
          pos = u32 (k.pos + video_size_row);
          scr_end = u32 (k.scr_end + video_size_row);
        }))
    else scroll_up_region k

-- `rep stosw` with the direction flag set
unfoldable pub stosw_down : Memory → ℕ → ℕ → ℕ → Memory
stosw_down m a word zero = m
stosw_down m a word (suc count) = stosw_down (store16 m a word) (a - 2) word count

-- `scrdown`: `rep movsl` downwards from the last long, `edi` then one word further up, and
-- `rep stosw` downwards. `copy_down` takes the ends of the two blocks.
pub scrdown : Console → Console
scrdown k =
    let longs = sub32 (sub32 k.bottom k.top) 1 * video_num_columns / 2 in
    let edi = k.origin + video_size_row * k.bottom - 4 in
    let esi = k.origin + video_size_row * (k.bottom - 1) - 4 in
    record k {
      mem =
          stosw_down (copy_down k.mem (edi + 4) (esi + 4) (4 * longs)) (edi - 4 * longs + 2)
            video_erase_char video_num_columns;
    }

pub lf : Console → Console
lf k =
    if ltb (k.y + 1) k.bottom
    then record k { y = k.y + 1; pos = u32 (k.pos + video_size_row) }
    else scrup k

pub ri : Console → Console
ri k =
    if ltb k.top k.y then record k { y = k.y - 1; pos = sub32 k.pos video_size_row } else scrdown k

unfoldable pub cr : Console → Console
cr k = record k { pos = sub32 k.pos (k.x * 2); x = 0 }

-- `del`, and the case of `'\b'` in `con_write`, which has the same text
unfoldable pub del : Console → Console
del k = if k.x == 0 then k else record k {
  pos = sub32 k.pos 2;
  x = k.x - 1;
  mem = store16 k.mem (sub32 k.pos 2) video_erase_char;
}

-- the loop of `insert_char`, with `left` rounds left
shift_right : Memory → ℕ → ℕ → ℕ → Memory
shift_right m p old zero = m
shift_right m p old (suc left) = shift_right (store16 m p old) (p + 2) (load16 m p) left

pub insert_char : Console → Console
insert_char k = record k {
  mem = shift_right k.mem k.pos video_erase_char (video_num_columns - k.x);
}

-- the loop of `delete_char`, and the erasure behind it
shift_left : Memory → ℕ → ℕ → Memory
shift_left m p zero = store16 m p video_erase_char
shift_left m p (suc left) = shift_left (store16 m p (load16 m (p + 2))) (p + 2) left

pub delete_char : Console → Console
delete_char k =
    if leb video_num_columns k.x
    then k
    else record k { mem = shift_left k.mem k.pos (video_num_columns - k.x - 1) }

-- `f` between `top = y; bottom = video_num_lines;` and their restoration
within_lines : (Console → Console) → Console → Console
within_lines f k = record (f (record k { top = k.y; bottom = video_num_lines })) {
  top = k.top;
  bottom = k.bottom;
}

pub insert_line : Console → Console
insert_line k = within_lines scrdown k

pub delete_line : Console → Console
delete_line k = within_lines scrup k

pub save_cur : Console → Console
save_cur k = record k { saved_x = k.x; saved_y = k.y }

pub restore_cur : Console → Console
restore_cur k = gotoxy k k.saved_x k.saved_y

-- the case of TAB
unfoldable pub tab : Console → Console
tab k =
    let c = 8 - k.x % 8 in
    let x = u32 (k.x + c) in
    let pos = u32 (k.pos + c * 2) in
    if ltb video_num_columns x
    then lf (record k { x = x - video_num_columns; pos = sub32 pos video_size_row })
    else record k { x = x; pos = pos }

-- the cases of the cursor keys
pub home : Console → Console
home k = gotoxy (record k { x = 0 }) 0 k.y

pub end : Console → Console
end k = gotoxy (record k { x = video_num_columns - 1 }) (video_num_columns - 1) k.y

pub up : Console → Console
up k =
    if k.y == 0
    then gotoxy (record (scrdown k) { y = 0 }) k.x 0
    else gotoxy (record k { y = k.y - 1 }) k.x (k.y - 1)

pub down : Console → Console
down k =
    if k.y == video_num_lines
    then gotoxy (record (scrup k) { y = video_num_lines }) (scrup k).x video_num_lines
    else gotoxy (record k { y = u32 (k.y + 1) }) k.x (u32 (k.y + 1))

pub left : Console → Console
left k =
    if k.x == 0
    then gotoxy (record k { x = video_num_columns; y = sub32 k.y 1 }) video_num_columns
        (sub32 k.y 1)
    else gotoxy (record k { x = k.x - 1 }) (k.x - 1) k.y

pub right : Console → Console
right k =
    if k.x == video_num_columns
    then gotoxy (record k { x = 0; y = u32 (k.y + 1) }) 0 (u32 (k.y + 1))
    else gotoxy (record k { x = u32 (k.x + 1) }) (u32 (k.x + 1)) k.y

-- the test of `default`: a line that is full goes on in the next
unfoldable pub wrap_line : Console → Console
wrap_line k =
    if leb video_num_columns k.x
    then lf (record k { x = k.x - video_num_columns; pos = sub32 k.pos video_size_row })
    else k

-- `*(unsigned char *)pos ++ = c; *(unsigned char *)pos ++ = 0x02; x++;`
unfoldable pub show_char : Console → ℕ → Console
show_char k c = record k {
  mem = store (store k.mem k.pos c) (u32 (k.pos + 1)) 0x02;
  pos = u32 (k.pos + 2);
  x = u32 (k.x + 1);
}

-- the cases from `HOME` to `DEL`; the last four do nothing
special_key : Console → ℕ → Console
special_key k c =
    if c == 0xe0
    then home k
    else if c == 0xe1
    then end k
    else if c == 0xe2
    then up k
    else if c == 0xe3
    then down k
    else if c == 0xe4
    then left k
    else if c == 0xe5
    then right k
    else k

-- the body of the loop of `con_write`, for the byte `c`
pub write_char : Console → ℕ → Console
write_char k c =
    if leb 10 c && leb c 13
    then lf (cr k)
    else if c == 127
    then del k
    else if c == 8
    then del k
    else if c == 9
    then tab k
    else if c == 7
    then k
    else if leb 0xe0 c && leb c 0xe9
    then special_key k c
    else show_char (wrap_line k) c

-- `con_write`, of the bytes in its buffer
pub con_write : Console → List ℕ → Console
con_write k [] = k
con_write k (c ∷ buf) = con_write (write_char k c) buf

-- the loop of `cls`, with `left` rounds left
blanks : ℕ → Console → Console
blanks zero k = k
blanks (suc left) k = blanks left (con_write k (32 ∷ []))

pub cls : Console → Console
cls k = gotoxy (blanks (video_size_all / 2) k) 0 0

-- `ORIG_X` and `ORIG_Y` are 0. What memory holds stays, and the statics before do not matter.
pub con_init : Console → Console
con_init k =
    let k1 =
      gotoxy
        (record k {
          origin = video_mem_start;
          scr_end = video_mem_start + video_num_lines * video_size_row;
          top = 0;
          bottom = video_num_lines;
        })
        0 0 in
    gotoxy (cls k1) 0 0
