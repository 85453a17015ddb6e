-- ===== src/Subscription/Dates.antt =====
-- src/services/dates.js, and `addCycle` and `addDays` of src/services/subscriptionService.js. A day is
-- a record of its year, month (from 1) and day; JavaScript's dates are the proleptic Gregorian
-- calendar, and a number of days stands for a time at midnight UTC.
use wppflow_backend.Common.{
  ℕ, zero, suc, ◌+◌, ◌-◌, ◌*◌, ◌/◌, ◌%◌, min, Bool, not, ◌&&◌, ◌||◌, leb, ltb, ◌==◌, if◌then◌else◌,
}
use wppflow_backend.Common.Int.{ℤ, pos, negsuc}

pub record Day : Type 0 where
  pub year : ℕ
  pub month : ℕ
  pub date : ℕ

unfoldable pub is_leap : ℕ → Bool
is_leap y = y % 4 == 0 && (not (y % 100 == 0) || y % 400 == 0)

unfoldable pub days_in_month : ℕ → ℕ → ℕ
days_in_month y m =
    if m == 2
    then if is_leap y then 29 else 28
    else if m == 4 || m == 6 || m == 9 || m == 11
    then 30
    else 31

-- A real date, as `validDate` wants it: the year has four digits.
unfoldable pub is_day : Day → Bool
is_day d =
    leb d.year 9999
    && leb 1 d.month
    && leb d.month 12
    && leb 1 d.date
    && leb d.date (days_in_month d.year d.month)

-- The days of the year before a month.
unfoldable pub days_before_month : ℕ → ℕ → ℕ
days_before_month y zero = 0
days_before_month y (suc zero) = 0
days_before_month y (suc (suc m)) = days_before_month y (suc m) + days_in_month y (suc m)

-- The leap days of the years before.
unfoldable pub days_before_year : ℕ → ℕ
days_before_year y = 365 * y + ((y + 3) / 4 + (y + 399) / 400 - (y + 99) / 100)

-- `utcDate(date) / DAY`, counted from the first day of the year 0.
unfoldable pub day_number : Day → ℕ
day_number d = days_before_year d.year + days_before_month d.year d.month + (d.date - 1)

unfoldable pub days_between : Day → Day → ℤ
days_between a b =
    let from = day_number a in
    let to = day_number b in if leb from to then pos (to - from) else negsuc (from - to - 1)

pub data Cycle : Type 0 where
  monthly annual : Cycle

-- `Date.UTC` takes a year before 100 for one of the twentieth century.
unfoldable pub utc_year : ℕ → ℕ
utc_year y = if ltb y 100 then y + 1900 else y

-- The month, after December the first of the next year.
unfoldable pub month_after : Day → Cycle → ℕ × ℕ
unfolding utc_year
month_after d annual = (utc_year d.year + 1, d.month)
month_after d monthly =
    if d.month == 12 then (utc_year d.year + 1, 1) else (utc_year d.year, d.month + 1)

-- The same day next month (or next year); a month without that day ends on its last day. After the
-- year 9999 the source writes a text that is no date; here it is a day that `is_day` refuses.
unfoldable pub add_cycle : Day → Cycle → Day
add_cycle d cycle =
    let (y, m) = month_after d cycle in
    record { year = y; month = m; date = min d.date (days_in_month y m) }
