-- ===== src/Strings.antt =====
-- lib/string.c (user/string.c is the same text): C strings and blocks of bytes in memory.
-- A loop over a string runs on fuel, `none` when it is used up; a loop with a count recurs on it.
-- A `char` is signed, so the comparisons subtract the integers that the bytes stand for.
pub mod Blocks
pub mod Chars
pub mod Compare
pub mod Same
pub mod Scan
mod Examples
use thunix.Base.{
  ℕ, zero, suc, ◌+◌, ◌-◌, ◌/◌, ◌^◌, Bool, false, ◌&&◌, not, Option, none, some, ltb, leb, ◌==◌,
  if◌then◌else◌, Memory, store, u8,
}
use thunix.Base.Int.{◌-ℤ◌, pos, negsuc, ℤ}

-- the value of a `char`
abbrev pub char_value : ℕ → ℤ
char_value b = if ltb b 128 then pos b else negsuc (255 - b)

-- `*s1 - *s2` at the place where the loop stopped
abbrev pub difference : Memory → ℕ → ℕ → ℤ
difference m s1 s2 = char_value (m s1) -ℤ char_value (m s2)

pub strcmp : ℕ → Memory → ℕ → ℕ → Option ℤ
strcmp zero m s1 s2 = none
strcmp (suc fuel) m s1 s2 =
    let rest = strcmp fuel m (s1 + 1) (s2 + 1) in
    if (m s1 == m s2) && not (m s1 == 0) then rest else some (difference m s1 s2)

abbrev is_zero : ℤ → Bool
is_zero (pos k) = k == 0
is_zero (negsuc k) = false

-- `--n` is tested first: the loop ends at `n = 1`, and from `n = 0` it goes on below zero.
pub strncmp : ℕ → Memory → ℕ → ℕ → ℤ → Option ℤ
strncmp zero m s1 s2 n = none
strncmp (suc fuel) m s1 s2 n =
    let n' = n -ℤ pos 1 in
    let rest = strncmp fuel m (s1 + 1) (s2 + 1) n' in
    if not (is_zero n') && ((m s1 == m s2) && not (m s1 == 0))
    then rest
    else some (difference m s1 s2)

-- `while ((*dest++ = *src++) != '\0')`
copy_string : ℕ → Memory → ℕ → ℕ → Option Memory
copy_string zero m dest src = none
copy_string (suc fuel) m dest src =
    let m' = store m dest (m src) in
    let rest = copy_string fuel m' (dest + 1) (src + 1) in if m src == 0 then some m' else rest

-- Both return `dest`, besides the memory.
pub strcpy : ℕ → Memory → ℕ → ℕ → Option Memory
unfolding copy_string
strcpy = copy_string

-- `while (*dest) dest++;`, also the loop of `strlen`: the address of the NUL
end_of : ℕ → Memory → ℕ → Option ℕ
end_of zero m s = none
end_of (suc fuel) m s = let rest = end_of fuel m (s + 1) in if m s == 0 then some s else rest

pub strcat : ℕ → Memory → ℕ → ℕ → Option Memory
unfolding end_of copy_string
strcat fuel m dest src = elim (end_of fuel m dest) [
  | none ↦ none
  | some d ↦ copy_string fuel m d src
]

pub strlen : ℕ → Memory → ℕ → Option ℕ
unfolding end_of
strlen fuel m s = elim (end_of fuel m s) [ none ↦ none | some sc ↦ some (sc - s) ]

-- The inner option is the pointer, `none` for NULL. `c` is the byte of a `char` argument.
pub strchr : ℕ → Memory → ℕ → ℕ → Option (Option ℕ)
strchr zero m s c = none
strchr (suc fuel) m s c =
    let rest = strchr fuel m (s + 1) c in
    if m s == 0 then some none else if m s == c then some (some s) else rest

-- `while (*end != c && end >= s) end--;`, then the test of `end`
scan_back : ℕ → Memory → ℕ → ℕ → ℕ → Option (Option ℕ)
scan_back zero m s end c = none
scan_back (suc fuel) m s end c =
    let rest = scan_back fuel m s (end - 1) c in
    if not (m end == c) && leb s end then rest else if ltb end s then some none else some (some end)

pub strrchr : ℕ → Memory → ℕ → ℕ → Option (Option ℕ)
unfolding scan_back
strrchr fuel m s c = elim (strlen fuel m s) [
  | none ↦ none
  | some n ↦ scan_back fuel m s (s + n - 1) c
]

-- `count` is taken to be nonnegative.
pub memset : Memory → ℕ → ℕ → ℕ → Memory
memset m s c zero = m
memset m s c (suc count) = memset (store m s (u8 c)) (s + 1) c count

-- two bytes for each word, little endian
pub memset_word : Memory → ℕ → ℕ → ℕ → Memory
memset_word m s word zero = m
memset_word m s word (suc count) =
    memset_word (store (store m s (u8 word)) (s + 1) (u8 (word / 2 ^ 8))) (s + 2) word count

-- `while (count--) *tmp++ = *s++;`
pub copy_up : Memory → ℕ → ℕ → ℕ → Memory
copy_up m tmp s zero = m
copy_up m tmp s (suc count) = copy_up (store m tmp (m s)) (tmp + 1) (s + 1) count

-- `while (count--) *--tmp = *--s;`
pub copy_down : Memory → ℕ → ℕ → ℕ → Memory
copy_down m tmp s zero = m
copy_down m tmp s (suc count) = copy_down (store m (tmp - 1) (m (s - 1))) (tmp - 1) (s - 1) count

pub memcpy : Memory → ℕ → ℕ → ℕ → Memory
unfolding copy_up
memcpy m dest src count = copy_up m dest src count

pub memmove : Memory → ℕ → ℕ → ℕ → Memory
unfolding copy_up copy_down
memmove m dest src count =
    if leb dest src
    then copy_up m dest src count
    else copy_down m (dest + count) (src + count) count

-- `res` is 0 before the first round.
pub memcmp : Memory → ℕ → ℕ → ℕ → ℤ
memcmp m cs ct zero = pos 0
memcmp m cs ct (suc count) =
    let rest = memcmp m (cs + 1) (ct + 1) count in
    if m cs == m ct then rest else pos (m cs) -ℤ pos (m ct)
