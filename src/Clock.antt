-- ===== src/Clock.antt =====
-- Instants of the standard library's `datetime` in UTC: the microseconds since the start of year 1.
use dox.Prelude.{
  ℕ, ◌+◌, ◌-◌, ◌*◌, ◌/◌, ◌%◌, ◌≤◌, ◌≡◌, refl, Bool, ◌&&◌, ◌||◌, not, ltb, if◌then◌else◌, ◌==◌, ℕ_eq,
  arith, ap,
}

abbrev pub hour : ℕ
hour = 3600000000

abbrev pub day : ℕ
day = 86400000000

-- `t.date()`, as the number of days since the first one.
abbrev pub date : ℕ → ℕ
date t = t / day

days_before_month : ℕ → ℕ
days_before_month m =
    if m == 1
    then 0
    else if m == 2
    then 31
    else if m == 3
    then 59
    else if m == 4
    then 90
    else if m == 5
    then 120
    else if m == 6
    then 151
    else if m == 7
    then 181
    else if m == 8
    then 212
    else if m == 9
    then 243
    else if m == 10
    then 273
    else if m == 11
    then 304
    else 334

-- The days of the year before month `m`.
days_before : Bool → ℕ → ℕ
unfolding days_before_month
days_before leap m = days_before_month m + (if ltb 2 m && leap then 1 else 0)

-- Days gone in the month, from the days gone in the year.
in_month : Bool → ℕ → ℕ
unfolding days_before
in_month leap n =
    let m = (n + 50) / 32 in
    if ltb n (days_before leap m) then n - days_before leap (m - 1) else n - days_before leap m

-- Days gone in the month of a date in the Gregorian calendar: `t.day - 1`.
unfoldable pub day_of_month : ℕ → ℕ
unfolding in_month
day_of_month date =
    let n400 = date % 146097 in
    let c100 = n400 / 36524 in
    let n100 = n400 % 36524 in
    let c4 = n100 / 1461 in
    let n4 = n100 % 1461 in
    let c1 = n4 / 365 in
    if c1 == 4 || c100 == 4
    then 30
    else in_month (c1 == 3 && (not (c4 == 24) || c100 == 3)) (n4 % 365)

-- `t.replace(day=1, hour=0, minute=0, second=0, microsecond=0)`
unfoldable pub month_start : ℕ → ℕ
month_start t = (date t - day_of_month (date t)) * day

pub month_start-le : (t : ℕ) → month_start t ≤ t
unfolding month_start
month_start-le t = omega arith

-- 29 February 2024, 31 December 2000 and 1 March 2023.
calendar : (day_of_month 738944 ≡ 28) × (day_of_month 730484 ≡ 30) × (day_of_month 738579 ≡ 0)
unfolding day_of_month
calendar = (refl, refl, refl)

-- The start of the month is that of the date.
pub month_start-date : (t u : ℕ) → date t ≡ date u → month_start t ≡ month_start u
unfolding month_start
month_start-date t u e = ap (λ (d : ℕ). (d - day_of_month d) * day) e
