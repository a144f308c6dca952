-- ===== src/Shell/Numbers.antt =====
-- kernel/shell.c: numbers among the arguments. Within the loops an `int` is its 32-bit word.
use thunix.Base.{
  ℕ, zero, suc, ◌+◌, ◌-◌, ◌*◌, ◌/◌, ◌%◌, ◌^◌, ◌≤◌, ◌<◌, ◌≡◌, refl, Bool, true, false, ◌&&◌, ◌||◌,
  Option, none, some, List, [], ◌∷◌, arith, ltb, leb, ◌==◌, if◌then◌else◌, length, Memory, u32,
}
use thunix.Base.Int.{pos, ℤ}
use thunix.Strings.Scan.{CStr}
use thunix.Tfs.Alloc.{as_int}

-- '0', '9', 'a', 'f' and 'x'
abbrev pub zero_char : ℕ
zero_char = 48

abbrev pub nine_char : ℕ
nine_char = 57

abbrev pub a_char : ℕ
a_char = 97

abbrev pub x_char : ℕ
x_char = 120

-- `c | 0x20`
abbrev pub or_0x20 : ℕ → ℕ
or_0x20 c = c + (1 - c / 32 % 2) * 32

-- a `char`, which is signed, as an `int`
abbrev pub char32 : ℕ → ℕ
char32 c = if ltb c 128 then c else 2 ^ 32 - 256 + c

-- a difference of two `int`s
abbrev pub minus32 : ℕ → ℕ → ℕ
minus32 a b = u32 (a + (2 ^ 32 - b))

-- the loop of `atoi_hex`, and the `int` it returns
unfoldable pub hex_from : ℕ → Memory → ℕ → ℕ → Option ℤ
hex_from zero m str sum = none
hex_from (suc fuel) m str sum =
    let c = m str in
    let digit =
      if ltb c nine_char || leb 128 c
      then minus32 (char32 c) zero_char
      else minus32 (or_0x20 c) a_char in
    let rest = hex_from fuel m (str + 1) (u32 (sum * 16 + digit)) in
    if c == 0 then some (as_int sum) else rest

unfoldable pub atoi_hex : ℕ → Memory → ℕ → Option ℤ
unfolding hex_from
atoi_hex fuel m str = hex_from fuel m str 0

-- the loop of `atoi`, and the `int` it returns
unfoldable pub decimal_from : ℕ → Memory → ℕ → ℕ → Option ℤ
decimal_from zero m str sum = none
decimal_from (suc fuel) m str sum =
    let rest =
      decimal_from fuel m (str + 1) (minus32 (u32 (sum * 10 + char32 (m str))) zero_char) in
    if m str == 0 then some (as_int sum) else rest

-- `atoi`
unfoldable pub atoi : ℕ → Memory → ℕ → Option ℤ
unfolding atoi_hex decimal_from
atoi fuel m str =
    if (m str == zero_char) && (or_0x20 (m (str + 1)) == x_char)
    then atoi_hex fuel m (str + 2)
    else decimal_from fuel m str 0

-- a byte from '0' to '9', and from 'a' to 'f' in either case
abbrev pub is_digit : ℕ → Bool
is_digit c = leb zero_char c && leb c nine_char

abbrev pub is_hex_digit : ℕ → Bool
is_hex_digit c = is_digit c || (leb a_char (or_0x20 c) && leb (or_0x20 c) 102)

unfoldable pub try_hex : ℕ → Memory → ℕ → Option Bool
try_hex zero m str = none
try_hex (suc fuel) m str =
    let rest = try_hex fuel m (str + 1) in
    if m str == 0 then some true else if is_hex_digit (m str) then rest else some false

-- the loop of `is_digits`
unfoldable pub all_digits : ℕ → Memory → ℕ → Option Bool
all_digits zero m str = none
all_digits (suc fuel) m str =
    let rest = all_digits fuel m (str + 1) in
    if m str == 0 then some true else if is_digit (m str) then rest else some false

unfoldable pub is_digits : ℕ → Memory → ℕ → Option Bool
unfolding try_hex all_digits
is_digits fuel m str =
    let digits = all_digits fuel m str in
    if (m str == zero_char) && (or_0x20 (m (str + 1)) == x_char)
    then elim (try_hex fuel m (str + 2)) [
      | none ↦ none
      | some hex ↦ if hex then some true else digits
    ]
    else digits

-- the digits 0 to 9, and their bytes
abbrev pub AreDigits : List ℕ → Type 0
AreDigits [] = Unit
AreDigits (d ∷ ds) = (d < 10) × AreDigits ds

abbrev pub digit_text : List ℕ → List ℕ
digit_text [] = []
digit_text (d ∷ ds) = (zero_char + d) ∷ digit_text ds

-- the number that they are the digits of, behind one that has been read
abbrev pub value_from : ℕ → List ℕ → ℕ
value_from sum [] = sum
value_from sum (d ∷ ds) = value_from (sum * 10 + d) ds

-- the number of a longer text is no smaller
value_from-le : (ds : List ℕ) (sum : ℕ) → sum ≤ value_from sum ds
value_from-le [] sum = omega arith
value_from-le (d ∷ ds) sum = omega (arith, value_from-le ds (sum * 10 + d))

decimal_from_lem :
    (ds : List ℕ) (fuel : ℕ) (m : Memory) (str sum : ℕ)
    → CStr m str (digit_text ds)
    → AreDigits ds
    → value_from sum ds < 2 ^ 31
    → length ds < fuel
    → decimal_from fuel m str sum ≡ some (pos (value_from sum ds))
unfolding decimal_from
decimal_from_lem ds zero m str sum text digits small enough = absurd (omega (arith, enough))
decimal_from_lem [] (suc fuel) m str sum text digits small enough = rw (text, not_negative) refl
  where
    not_negative : leb (2 ^ 31) sum ≡ false
    not_negative = ground (arith, small)
decimal_from_lem (d ∷ ds) (suc fuel) m str sum (e, nonzero, text) (digit, digits) small enough =
    rw (goes, e, next)
      (decimal_from_lem ds fuel m (str + 1) (sum * 10 + d) text digits small
        (omega (arith, enough)))
  where
    goes : (m str == 0) ≡ false
    goes = ground (arith, e, nonzero)

    next :
        minus32
          (u32 (
            sum * 10
            + (if ltb (zero_char + d) 128 then zero_char + d else 2 ^ 32 - 256 + (zero_char + d))))
          zero_char
        ≡ sum * 10 + d
    next = ground (arith, digit, small, value_from-le ds (sum * 10 + d))

all_digits_lem :
    (ds : List ℕ) (fuel : ℕ) (m : Memory) (str : ℕ)
    → CStr m str (digit_text ds)
    → AreDigits ds
    → length ds < fuel
    → all_digits fuel m str ≡ some true
unfolding all_digits
all_digits_lem ds zero m str text digits enough = absurd (omega (arith, enough))
all_digits_lem [] (suc fuel) m str text digits enough = rw text refl
all_digits_lem (d ∷ ds) (suc fuel) m str (e, nonzero, text) (digit, digits) enough =
    rw (goes, is_one, all_digits_lem ds fuel m (str + 1) text digits (omega (arith, enough))) refl
  where
    goes : (m str == 0) ≡ false
    goes = ground (arith, e, nonzero)

    is_one : (leb zero_char (m str) && leb (m str) nine_char) ≡ true
    is_one = ground (arith, e, digit)

-- digits do not start with "0x"
no_prefix :
    (ds : List ℕ) (m : Memory) (str : ℕ)
    → CStr m str (digit_text ds)
    → AreDigits ds
    → ((m str == zero_char) && (or_0x20 (m (str + 1)) == x_char)) ≡ false
no_prefix [] m str text digits = ground (arith, text)
no_prefix (d ∷ []) m str (e, nonzero, text) digits = ground (arith, text)
no_prefix (d ∷ d' ∷ ds) m str (e, nonzero, (e', nonzero', text)) (digit, (digit', digits)) =
    ground (arith, e', digit')

-- For the bytes of decimal digits whose number is below 2^31, with rounds for them: `is_digits` is true
-- of them, and `atoi` returns that number.
pub atoi_lem :
    (ds : List ℕ) (fuel : ℕ) (m : Memory) (str : ℕ)
    → CStr m str (digit_text ds)
    → AreDigits ds
    → value_from 0 ds < 2 ^ 31
    → length ds < fuel
    → (is_digits fuel m str ≡ some true) × (atoi fuel m str ≡ some (pos (value_from 0 ds)))
unfolding is_digits atoi
atoi_lem ds fuel m str text digits small enough = (
  rw (no_prefix ds m str text digits) (all_digits_lem ds fuel m str text digits enough),
  rw (no_prefix ds m str text digits) (decimal_from_lem ds fuel m str 0 text digits small enough),
)
