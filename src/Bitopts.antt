-- ===== src/Bitopts.antt =====
-- lib/bitopts.c: single bits of a bitmap in memory, and the search for a clear one.
pub mod Laws
pub mod Search
mod Examples
use thunix.Base.{
  ℕ, zero, suc, ◌+◌, ◌-◌, ◌/◌, ◌%◌, ◌^◌, ◌&&◌, Bool, Option, none, some, Memory, store, load32, ltb,
  leb, ◌==◌, if◌then◌else◌, bit_and, bit_or, u32,
}

-- `1 << (nr & 0x07)`
abbrev pub mask : ℕ → ℕ
mask nr = 2 ^ (nr % 8)

-- the byte that holds bit `nr`: `ADDR += nr >> 3`
abbrev pub byte_of : ℕ → ℕ → ℕ
byte_of addr nr = addr + nr / 8

-- The first part is `retval`, the second the memory after the store.
pub set_bit : Memory → ℕ → ℕ → ℕ × Memory
set_bit m addr nr =
    let a = byte_of addr nr in (bit_and (mask nr) (m a), store m a (bit_or (m a) (mask nr)))

-- `~mask` is taken of a 32-bit `int`.
pub clear_bit : Memory → ℕ → ℕ → ℕ × Memory
clear_bit m addr nr =
    let a = byte_of addr nr in
    (bit_and (mask nr) (m a), store m a (bit_and (m a) (2 ^ 32 - 1 - mask nr)))

pub test_bit : Memory → ℕ → ℕ → ℕ
test_bit m addr nr = bit_and (mask nr) (m (byte_of addr nr))

-- `return -1` from a function that returns `unsigned long`
abbrev pub minus_one : ℕ
minus_one = 2 ^ 32 - 1

-- `for (i = 0; i < 32; i++) if (test_bit(p, i) == 0) return block + i;`, with `left` rounds left
scan_word : Memory → ℕ → ℕ → ℕ → ℕ → ℕ
scan_word m p block zero i = minus_one
scan_word m p block (suc left) i =
    let rest = scan_word m p block left (i + 1) in
    if test_bit m p i == 0 then u32 (block + i) else rest

-- `while (*p == 0xffffffff && (void *)p < end)`, on fuel, and what follows the loop
search_words : Memory → ℕ → ℕ → ℕ → ℕ → Option ℕ
search_words m end zero p block = none
search_words m end (suc fuel) p block =
    let next = search_words m end fuel (p + 4) (u32 (block + 32)) in
    if (load32 m p == 0xffff_ffff) && ltb p end
    then next
    else if leb end p
    then some minus_one
    else some (scan_word m p block 32 0)

-- Each round moves `p` on, so `end - buf + 1` rounds are enough.
pub find_first_zero : Memory → ℕ → ℕ → Option ℕ
find_first_zero m buf end = search_words m end (end - buf + 1) buf 0
