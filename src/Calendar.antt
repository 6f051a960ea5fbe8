-- ===== src/Calendar.antt =====
-- Python's `datetime.date` and the date helpers of src/app/business/services/scheduler_service.py.
-- `date`, `timedelta(days=n)`, `calendar.monthrange`, `isoweekday` and the order of dates are those
-- of the standard library. Python stops at the year 9999 (`OverflowError`); here years go on.
pub mod Iso
pub mod Laws
pub mod Weekday
use python_workflow_service.Prelude.{
  ℕ, zero, suc, ◌+◌, ◌-◌, ◌*◌, ◌/◌, ◌%◌, min, Bool, true, false, not, ◌&&◌, ◌||◌, ltb, ◌==◌,
  if◌then◌else◌,
}

pub record Date : Type 0 where
  pub year : ℕ
  pub month : ℕ
  pub day : ℕ

-- `date(year, month, day)`.
abbrev pub date : (year month day : ℕ) → Date
date y m d = record { year = y; month = m; day = d }

unfoldable pub is_leap : ℕ → Bool
is_leap y = y % 4 == 0 && (not (y % 100 == 0) || y % 400 == 0)

-- `calendar.monthrange(year, month)[1]`.
unfoldable pub last_day : ℕ → ℕ → ℕ
unfolding is_leap
last_day y m =
    if m == 2
    then (if is_leap y then 29 else 28)
    else (if m == 4 || m == 6 || m == 9 || m == 11 then 30 else 31)

-- The order of `date` values: by year, then month, then day.
abbrev pub date_ltb : Date → Date → Bool
date_ltb a b =
    if a.year == b.year
    then (if a.month == b.month then ltb a.day b.day else ltb a.month b.month)
    else ltb a.year b.year

abbrev pub date_leb : Date → Date → Bool
date_leb a b = not (date_ltb b a)

abbrev pub date_eq : Date → Date → Bool
date_eq a b = a.year == b.year && a.month == b.month && a.day == b.day

-- `max(a, b)`: the first argument where they are equal.
abbrev pub date_max : Date → Date → Date
date_max a b = if date_ltb a b then b else a

unfoldable pub next_day : Date → Date
unfolding last_day
next_day d =
    if ltb d.day (last_day d.year d.month)
    then record d { day = d.day + 1 }
    else (if ltb d.month 12 then date d.year (d.month + 1) 1 else date (d.year + 1) 1 1)

-- `day + timedelta(days=n)`.
unfoldable pub add_days : ℕ → Date → Date
unfolding next_day
add_days zero d = d
add_days (suc n) d = add_days n (next_day d)

unfoldable pub days_before_month : ℕ → ℕ → ℕ
unfolding last_day
days_before_month y zero = 0
days_before_month y (suc zero) = 0
days_before_month y (suc (suc m)) = days_before_month y (suc m) + last_day y (suc m)

-- `date.toordinal`.
unfoldable pub to_ordinal : Date → ℕ
unfolding days_before_month
to_ordinal d =
    let p = d.year - 1 in
    p * 365 + p / 4 - p / 100 + p / 400 + days_before_month d.year d.month + d.day

-- `date.isoweekday`: Monday is 1, Sunday is 7.
unfoldable pub isoweekday : Date → ℕ
unfolding to_ordinal
isoweekday d = let w = to_ordinal d % 7 in if w == 0 then 7 else w

-- `_add_months`.
unfoldable pub add_months : Date → ℕ → Date
unfolding last_day
add_months d months =
    let month = d.month - 1 + months in
    let year = d.year + month / 12 in
    let month' = month % 12 + 1 in date year month' (min d.day (last_day year month'))

-- `nxt.replace(day=n)`, for a day that the month has.
abbrev pub replace_day : Date → ℕ → Date
replace_day d n = record d { day = n }
