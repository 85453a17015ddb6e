-- ===== src/Subscription/Calendar.antt =====
-- How long a period is.
use wppflow_backend.Common.{
  ℕ, zero, suc, ◌+◌, min, ◌≤◌, ◌<◌, true, false, ◌&&◌, ◌==◌, if◌then◌else◌, ◌≡◌, refl, arith,
}
use wppflow_backend.Subscription.Dates.{
  Day, is_leap, days_in_month, is_day, days_before_month, days_before_year, day_number, Cycle,
  monthly, annual, utc_year, month_after, add_cycle,
}

leap_test : day_number (record { year = 2024; month = 3; date = 1 }) ≡ 739311
unfolding day_number days_before_year days_before_month days_in_month is_leap
leap_test = refl

next_year :
    (y : ℕ) → days_before_year (suc y) ≡ days_before_year y + (if is_leap y then 366 else 365)
unfolding days_before_year is_leap
next_year y = ground arith

-- `add_cycle` where `Date.UTC` leaves the year as it is.
next_month : Day → Cycle → ℕ × ℕ
next_month d annual = (d.year + 1, d.month)
next_month d monthly = if d.month == 12 then (d.year + 1, 1) else (d.year, d.month + 1)

next_cycle : Day → Cycle → Day
next_cycle d cycle =
    let (y, m) = next_month d cycle in
    record { year = y; month = m; date = min d.date (days_in_month y m) }

utc_year-late : (y : ℕ) → 100 ≤ y → utc_year y ≡ y
unfolding utc_year
utc_year-late y h = ground arith

add_cycle-next : (d : Day) (cycle : Cycle) → 100 ≤ d.year → add_cycle d cycle ≡ next_cycle d cycle
unfolding add_cycle month_after next_cycle next_month
add_cycle-next d monthly h = rw (utc_year-late d.year h) refl
add_cycle-next d annual h = rw (utc_year-late d.year h) refl

-- A month within a year, or over its end, from a day of the month.
unfoldable MonthBounds : ℕ → ℕ → ℕ → Type 0
MonthBounds y m k =
    let d : Day = record { year = y; month = m; date = k } in
    (day_number d + 28 ≤ day_number (next_cycle d monthly))
    × (day_number (next_cycle d monthly) ≤ day_number d + 31)

months : (y m k : ℕ) → m < 12 → 1 ≤ k → k ≤ days_in_month y (suc m) → MonthBounds y (suc m) k
unfolding MonthBounds day_number next_cycle next_month days_before_month days_in_month
months y zero k lt one le = ground arith
months y (suc zero) k lt one le = ground arith
months y (suc (suc zero)) k lt one le = ground arith
months y (suc (suc (suc zero))) k lt one le = ground arith
months y (suc (suc (suc (suc zero)))) k lt one le = ground arith
months y (suc (suc (suc (suc (suc zero))))) k lt one le = ground arith
months y (suc (suc (suc (suc (suc (suc zero)))))) k lt one le = ground arith
months y (suc (suc (suc (suc (suc (suc (suc zero))))))) k lt one le = ground arith
months y (suc (suc (suc (suc (suc (suc (suc (suc zero)))))))) k lt one le = ground arith
months y (suc (suc (suc (suc (suc (suc (suc (suc (suc zero))))))))) k lt one le = ground arith
months y (suc (suc (suc (suc (suc (suc (suc (suc (suc (suc zero)))))))))) k lt one le = ground arith
months y (suc (suc (suc (suc (suc (suc (suc (suc (suc (suc (suc zero))))))))))) k lt one le =
    ground (arith, next_year y)
months y (suc (suc (suc (suc (suc (suc (suc (suc (suc (suc (suc (suc m)))))))))))) k lt one le =
    omega arith

one_leap : (y : ℕ) → (is_leap y && is_leap (suc y)) ≡ false
unfolding is_leap
one_leap y = ground arith

next_cycle-is_day :
    (d : Day) (cycle : Cycle) → is_day d ≡ true → d.year < 9999 → is_day (next_cycle d cycle) ≡ true
unfolding is_day next_cycle next_month days_in_month is_leap
next_cycle-is_day d monthly h few = ground arith
next_cycle-is_day d annual h few = ground arith

unfoldable YearBounds : ℕ → ℕ → ℕ → Type 0
YearBounds y m k =
    let d : Day = record { year = y; month = m; date = k } in
    (day_number d + 365 ≤ day_number (next_cycle d annual))
    × (day_number (next_cycle d annual) ≤ day_number d + 366)

years : (y m k : ℕ) → m < 12 → 1 ≤ k → k ≤ days_in_month y (suc m) → YearBounds y (suc m) k
unfolding YearBounds day_number next_cycle next_month days_before_month days_in_month
years y zero k lt one le = ground (arith, next_year y, one_leap y)
years y (suc zero) k lt one le = ground (arith, next_year y, one_leap y)
years y (suc (suc zero)) k lt one le = ground (arith, next_year y, one_leap y)
years y (suc (suc (suc zero))) k lt one le = ground (arith, next_year y, one_leap y)
years y (suc (suc (suc (suc zero)))) k lt one le = ground (arith, next_year y, one_leap y)
years y (suc (suc (suc (suc (suc zero))))) k lt one le = ground (arith, next_year y, one_leap y)
years y (suc (suc (suc (suc (suc (suc zero)))))) k lt one le =
    ground (arith, next_year y, one_leap y)
years y (suc (suc (suc (suc (suc (suc (suc zero))))))) k lt one le =
    ground (arith, next_year y, one_leap y)
years y (suc (suc (suc (suc (suc (suc (suc (suc zero)))))))) k lt one le =
    ground (arith, next_year y, one_leap y)
years y (suc (suc (suc (suc (suc (suc (suc (suc (suc zero))))))))) k lt one le =
    ground (arith, next_year y, one_leap y)
years y (suc (suc (suc (suc (suc (suc (suc (suc (suc (suc zero)))))))))) k lt one le =
    ground (arith, next_year y, one_leap y)
years y (suc (suc (suc (suc (suc (suc (suc (suc (suc (suc (suc zero))))))))))) k lt one le =
    ground (arith, next_year y, one_leap y)
years y (suc (suc (suc (suc (suc (suc (suc (suc (suc (suc (suc (suc m)))))))))))) k lt one le =
    omega arith

in_year :
    (y m k : ℕ)
    → is_day (record { year = y; month = m; date = k }) ≡ true
    → MonthBounds y m k × YearBounds y m k
unfolding is_day
in_year y zero k h = absurd (ground arith)
in_year y (suc m) k h =
    let lt : m < 12 = ground arith in
    let one : 1 ≤ k = ground arith in
    let le : k ≤ days_in_month y (suc m) = ground arith in
    (months y m k lt one le, years y m k lt one le)

-- From a real day of the years 100 to 9998, a month is 28 to 31 days and a year 365 or 366, and both
-- end on a real day.
pub add_cycle_length :
    (d : Day)
    → is_day d ≡ true
    → 100 ≤ d.year
    → d.year < 9999
    → ((day_number d + 28 ≤ day_number (add_cycle d monthly))
        × (day_number (add_cycle d monthly) ≤ day_number d + 31)
        × (is_day (add_cycle d monthly) ≡ true))
      × ((day_number d + 365 ≤ day_number (add_cycle d annual))
          × (day_number (add_cycle d annual) ≤ day_number d + 366)
          × (is_day (add_cycle d annual) ≡ true))
unfolding MonthBounds YearBounds
add_cycle_length d h late few =
    let ((a, b), (c, e)) = in_year d.year d.month d.date h in
    rw (add_cycle-next d monthly late, add_cycle-next d annual late)
      ((a, b, next_cycle-is_day d monthly h few), (c, e, next_cycle-is_day d annual h few))
