-- ===== src/Mktime/Examples.antt =====
-- kernel/mktime.c at dates of 2009 and 2012.
use thunix.Base.{◌+◌, ◌-◌, ◌*◌, ◌/◌, ◌≡◌, refl, arith, u32}
use thunix.Mktime.{Tm, kernel_mktime}
use thunix.Mktime.Calendar.{date, days_before, kernel_mktime_lem, kernel_mktime-leap_day}

-- 15 June of year 9, 12:30:05; months count from 0
abbrev noon : Tm
noon = record { tm_sec = 5; tm_min = 30; tm_hour = 12; tm_mday = 15; tm_mon = 5; tm_year = 9 }

kernel_mktime_lem_example :
    kernel_mktime noon
    ≡ u32
        (86400 * (365 * (9 - 1) + (9 - 1) / 4 + days_before 5 + (15 - 1)) + 3600 * 12 + 60 * 30 + 5)
kernel_mktime_lem_example =
    kernel_mktime_lem noon (omega arith) (omega arith) (omega arith) (omega arith) (omega arith)
      (omega arith)

kernel_mktime-leap_day_example : kernel_mktime (date 12 1 29) ≡ kernel_mktime (date 12 2 1)
kernel_mktime-leap_day_example =
    kernel_mktime-leap_day 12 (omega arith) (omega arith) refl (omega arith)
