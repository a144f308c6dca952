-- ===== src/Mktime.antt =====
-- kernel/mktime.c: the seconds of a date. `long` and `int` have 32 bits, and stand here for the bit
-- pattern of their value.
mod Examples
pub mod Calendar
use thunix.Base.{
  ℕ, ◌+◌, ◌*◌, ◌%◌, ◌&&◌, not, [], ◌∷◌, magnitude32, pred32, quotient32, ltb, ◌==◌, if◌then◌else◌,
  get_or, u32,
}

abbrev minute : ℕ
minute = 60

abbrev hour : ℕ
hour = 60 * minute

abbrev day : ℕ
day = 24 * hour

abbrev year_length : ℕ
year_length = 365 * day

-- `struct tm` of include/time.h. The year counts from 0, as the caller's does from 2000.
pub record Tm : Type 0 where
  pub tm_sec : ℕ
  pub tm_min : ℕ
  pub tm_hour : ℕ
  pub tm_mday : ℕ
  pub tm_mon : ℕ
  pub tm_year : ℕ

-- `month[i]`; `tm_mon` is below 12.
unfoldable pub month : ℕ → ℕ
month i =
    get_or
      (0
        ∷ day * 31
        ∷ day * 59
        ∷ day * 90
        ∷ day * 120
        ∷ day * 151
        ∷ day * 181
        ∷ day * 212
        ∷ day * 243
        ∷ day * 273
        ∷ day * 304
        ∷ day * 334
        ∷ [])
      i 0

-- `leap = ((tm_year % 4) ? 0 : ((tm_year % 100) ? 0 : 1))`
unfoldable pub leap : ℕ → ℕ
leap tm_year =
    if not (magnitude32 tm_year % 4 == 0)
    then 0
    else if not (magnitude32 tm_year % 100 == 0)
    then 0
    else 1

unfoldable pub kernel_mktime : Tm → ℕ
unfolding month leap
kernel_mktime tm =
    let year = pred32 tm.tm_year in
    let res = year_length * year + day * quotient32 year 4 + month tm.tm_mon in
    let res1 = if ltb 1 tm.tm_mon && not (leap tm.tm_year == 0) then res + day else res in
    u32 (res1 + day * pred32 tm.tm_mday + hour * tm.tm_hour + minute * tm.tm_min + tm.tm_sec)
