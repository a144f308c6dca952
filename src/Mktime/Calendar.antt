-- ===== src/Mktime/Calendar.antt =====
-- kernel/mktime.c against the lengths of the months.
use thunix.Base.{
  ℕ, zero, suc, ◌+◌, ◌-◌, ◌*◌, ◌/◌, ◌%◌, ◌^◌, ◌<◌, ◌≡◌, refl, sym, ap, ◌∙◌, ◌≢◌, false, ◌&&◌, not,
  [], ◌∷◌, arith, pred32, quotient32, ltb, leb, ◌==◌, get_or, u32,
}
use thunix.Mktime.{Tm, month, leap, kernel_mktime}

-- the days of a month, numbered from 0, of a year that is not a leap year
abbrev month_days : ℕ → ℕ
month_days i = get_or (31 ∷ 28 ∷ 31 ∷ 30 ∷ 31 ∷ 30 ∷ 31 ∷ 31 ∷ 30 ∷ 31 ∷ 30 ∷ 31 ∷ []) i 0

-- the days of the months before month `i`
pub days_before : ℕ → ℕ
days_before zero = 0
days_before (suc i) = days_before i + month_days i

-- the date `mday` of month `mon`, at midnight
abbrev pub date : ℕ → ℕ → ℕ → Tm
date year mon mday = record {
  tm_sec = 0;
  tm_min = 0;
  tm_hour = 0;
  tm_mday = mday;
  tm_mon = mon;
  tm_year = year;
}

month_lem : (i : ℕ) → i < 12 → month i ≡ 86400 * days_before i
unfolding month days_before
month_lem i h = ground arith

leap_lem : (year : ℕ) → year < 2 ^ 31 → year % 100 ≢ 0 → leap year ≡ 0
unfolding leap
leap_lem year small ne = rw positive (ground (arith, ne))
  where
    positive : leb (2 ^ 31) year ≡ false
    positive = ground (arith, small)

pred32_lem : (u : ℕ) → 0 < u → u < 2 ^ 31 → pred32 u ≡ u - 1
pred32_lem u some_u small = omega (arith, some_u, small)

quotient32_lem : (u n : ℕ) → u < 2 ^ 31 → quotient32 u n ≡ u / n
quotient32_lem u n small = rw positive refl
  where
    positive : leb (2 ^ 31) u ≡ false
    positive = ground (arith, small)

-- For a year from 1 that is no multiple of 100, a month below 12 and a day from 1, the year and the day
-- below 2^31: `kernel_mktime` adds up the days of the years before, at one leap day in four years, those
-- of the months before, with 28 days for February in a leap year too, those of the month before the
-- day, and the time of the day.
pub kernel_mktime_lem :
    (tm : Tm)
    → 0 < tm.tm_year
    → tm.tm_year < 2 ^ 31
    → tm.tm_year % 100 ≢ 0
    → tm.tm_mon < 12
    → 0 < tm.tm_mday
    → tm.tm_mday < 2 ^ 31
    → let days =
        365 * (tm.tm_year - 1) + (tm.tm_year - 1) / 4 + days_before tm.tm_mon + (tm.tm_mday - 1) in
      kernel_mktime tm ≡ u32 (86400 * days + 3600 * tm.tm_hour + 60 * tm.tm_min + tm.tm_sec)
unfolding kernel_mktime
kernel_mktime_lem tm some_year year31 ne h some_day day31 =
    rw
      (
        no_day,
        month_lem tm.tm_mon h,
        pred32_lem tm.tm_year some_year year31,
        pred32_lem tm.tm_mday some_day day31,
        quotient32_lem (tm.tm_year - 1) 4 (omega (arith, year31)),
      )
      (ap u32 (omega arith))
  where
    no_day : (ltb 1 tm.tm_mon && not (leap tm.tm_year == 0)) ≡ false
    no_day = ground (arith, leap_lem tm.tm_year year31 ne)

-- In a leap year below 2^31 that is no multiple of 100, the last day of February and the first of March
-- have the same time.
pub kernel_mktime-leap_day :
    (year : ℕ)
    → 0 < year
    → year < 2 ^ 31
    → year % 4 ≡ 0
    → year % 100 ≢ 0
    → kernel_mktime (date year 1 29) ≡ kernel_mktime (date year 2 1)
unfolding days_before
kernel_mktime-leap_day year some_year small four ne =
    kernel_mktime_lem (date year 1 29) some_year small ne (omega arith) (omega arith) (omega arith)
    ∙ ap u32 (omega arith)
    ∙ sym (
        kernel_mktime_lem (date year 2 1) some_year small ne (omega arith) (omega arith)
          (omega arith))
