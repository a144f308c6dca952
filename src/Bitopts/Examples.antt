-- ===== src/Bitopts/Examples.antt =====
-- lib/bitopts.c at a bitmap whose first five bytes are full.
use thunix.Base.{ℕ, ◌≡◌, refl, ◌≢◌, some, arith, ltb, ◌==◌, if◌then◌else◌, Memory, load32, IsBytes}
use thunix.Bitopts.{
  mask, byte_of, set_bit, clear_bit, test_bit, find_first_zero, search_words, scan_word,
}
use thunix.Bitopts.Laws.{set_bit_lem, clear_bit_lem}
use thunix.Bitopts.Search.{IsFirstZero, find_first_zero_lem}

abbrev bitmap : Memory
bitmap a = if ltb a 5 then 255 else 7

bitmap-IsBytes : IsBytes bitmap
bitmap-IsBytes a = ground arith

finds_bit_43 : find_first_zero bitmap 0 8 ≡ some 43
unfolding find_first_zero search_words scan_word load32 test_bit
finds_bit_43 = refl

all_full : find_first_zero bitmap 0 4 ≡ some 0xffff_ffff
unfolding find_first_zero search_words scan_word load32 test_bit
all_full = refl

set_bit_lem_example :
    let (retval, m') = set_bit bitmap 0 43 in
    (retval ≡ test_bit bitmap 0 43)
    × ((j : ℕ) → test_bit m' 0 j ≡ (if j == 43 then mask 43 else test_bit bitmap 0 j))
    × ((x : ℕ) → x ≢ byte_of 0 43 → m' x ≡ bitmap x)
set_bit_lem_example = set_bit_lem bitmap 0 43 bitmap-IsBytes

clear_bit_lem_example :
    let (retval, m') = clear_bit bitmap 0 9 in
    (retval ≡ test_bit bitmap 0 9)
    × ((j : ℕ) → test_bit m' 0 j ≡ (if j == 9 then 0 else test_bit bitmap 0 j))
    × ((x : ℕ) → x ≢ byte_of 0 9 → m' x ≡ bitmap x)
clear_bit_lem_example = clear_bit_lem bitmap 0 9 bitmap-IsBytes

find_first_zero_lem_example :
    (r : ℕ) × (find_first_zero bitmap 0 8 ≡ some r) × IsFirstZero bitmap 0 64 r
find_first_zero_lem_example = find_first_zero_lem bitmap 0 2 bitmap-IsBytes (omega arith)
