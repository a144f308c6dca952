-- ===== src/Strings/Examples.antt =====
-- lib/string.c at a memory that holds "ab" at 10, "abc" at 20 and zeros elsewhere.
use thunix.Base.{
  ℕ, ◌+◌, ◌-◌, ◌/◌, ◌%◌, ◌^◌, ◌<◌, ◌≡◌, refl, ◌↔◌, ◌⊎◌, inr, ◌||◌, Option, some, List, [], ◌∷◌,
  ◌++◌, arith, ◌==◌, if◌then◌else◌, length, Memory, IsBytes, u8,
}
use thunix.Base.Int.{◌-ℤ◌, pos, negsuc, ℤ}
use thunix.Strings.{
  strcmp, strncmp, strcpy, strcat, strlen, strchr, strrchr, memset, memset_word, memcpy, memmove,
  memcmp,
}
use thunix.Strings.Blocks.{
  copied, within, memset_lem, memset_word_lem, memcpy_lem, memmove_lem, Compared, memcmp_lem,
}
use thunix.Strings.Scan.{CStr, strlen_lem, strcpy_lem, strcat_lem}
use thunix.Strings.Chars.{IsFirst, IsLast, strchr_lem, strrchr_lem}
use thunix.Strings.Compare.{take, strcmp_lem, strncmp_lem, strncmp-zero}

abbrev text : Memory
text a =
    if (a == 10) || (a == 20)
    then 97
    else if (a == 11) || (a == 21)
    then 98
    else if a == 22
    then 99
    else 0

text-IsBytes : IsBytes text
text-IsBytes a = ground arith

abbrev ab : List ℕ
ab = 97 ∷ 98 ∷ []

abbrev abc : List ℕ
abc = 97 ∷ 98 ∷ 99 ∷ []

ab-CStr : CStr text 10 ab
ab-CStr = (refl, omega arith, (refl, omega arith, refl))

abc-CStr : CStr text 20 abc
abc-CStr = (refl, omega arith, (refl, omega arith, (refl, omega arith, refl)))

strcmp_run : strcmp 9 text 10 20 ≡ some (negsuc 98)
unfolding strcmp ◌-ℤ◌
strcmp_run = refl

memset_lem_example : memset text 11 7 3 12 ≡ (if within 11 3 12 then u8 7 else text 12)
memset_lem_example = memset_lem 3 text 11 7 12

memset_word_lem_example : memset_word text 11 0x720 3 12 ≡ (
    if within 11 6 12
    then (if (12 - 11) % 2 == 0 then u8 0x720 else u8 (0x720 / 2 ^ 8))
    else text 12)
memset_word_lem_example = memset_word_lem 3 text 11 0x720 12

memcpy_lem_example : memcpy text 30 20 3 31 ≡ copied text 30 20 3 31
memcpy_lem_example = memcpy_lem text 30 20 3 31 (inr (omega arith))

memmove_lem_example : memmove text 21 20 3 22 ≡ copied text 21 20 3 22
memmove_lem_example = memmove_lem text 21 20 3 22

memcmp_lem_example : Compared text 10 20 3 (memcmp text 10 20 3)
memcmp_lem_example = memcmp_lem 3 text 10 20

strlen_lem_example : strlen 9 text 20 ≡ some 3
strlen_lem_example = strlen_lem 9 text 20 abc abc-CStr (omega arith)

strcpy_lem_example :
    (m' : Memory) × (strcpy 9 text 30 20 ≡ some m')
    × CStr m' 30 abc
    × ((x : ℕ) → (x < 30) ⊎ (30 + length abc < x) → m' x ≡ text x)
strcpy_lem_example = strcpy_lem 9 text 30 20 abc abc-CStr (omega arith) (inr (omega arith))

strcat_lem_example :
    (m' : Memory) × (strcat 9 text 20 10 ≡ some m')
    × CStr m' 20 (abc ++ ab)
    × ((x : ℕ) → (x < 20 + length abc) ⊎ (20 + length abc + length ab < x) → m' x ≡ text x)
strcat_lem_example =
    strcat_lem 9 text 20 10 abc ab abc-CStr ab-CStr (omega arith) (omega arith) (inr (omega arith))

strchr_lem_example :
    (r : Option ℕ) × (strchr 9 text 20 98 ≡ some r) × IsFirst text 20 (length abc) 98 r
strchr_lem_example = strchr_lem 9 text 20 98 abc abc-CStr (omega arith)

strrchr_lem_example :
    (r : Option ℕ) × (strrchr 9 text 20 97 ≡ some r) × IsLast text 20 (length abc) 97 r
strrchr_lem_example = strrchr_lem 9 text 20 97 abc (omega arith) abc-CStr (omega arith)

strcmp_lem_example : (r : ℤ) × (strcmp 9 text 10 20 ≡ some r) × ((r ≡ pos 0) ↔ (ab ≡ abc))
strcmp_lem_example = strcmp_lem 9 text 10 20 ab abc text-IsBytes ab-CStr abc-CStr (omega arith)

strncmp_lem_example :
    (r : ℤ) × (strncmp 9 text 10 20 (pos 2) ≡ some r) × ((r ≡ pos 0) ↔ (take 2 ab ≡ take 2 abc))
strncmp_lem_example = strncmp_lem 9 1 text 10 20 ab abc text-IsBytes ab-CStr abc-CStr (omega arith)

strncmp-zero_example : strncmp 9 text 10 20 (pos 0) ≡ strcmp 9 text 10 20
strncmp-zero_example = strncmp-zero 9 text 10 20
