-- ===== src/Calendar/Weekday.antt =====
-- Ordinals count the days, so weekdays come in turn.
use python_workflow_service.Prelude.{
  ℕ, zero, suc, ◌+◌, ◌-◌, ◌*◌, ◌/◌, ◌%◌, ◌≤◌, ◌≡◌, refl, arith, ltb, ◌==◌, if◌then◌else◌, ap, ◌∙◌,
}
use python_workflow_service.Calendar.{
  Date, date, is_leap, last_day, next_day, add_days, days_before_month, to_ordinal, isoweekday,
}
use python_workflow_service.Calendar.Laws.{IsDate, next_day-IsDate}

days_before_month-suc :
    (y m : ℕ) → 1 ≤ m → days_before_month y (m + 1) ≡ days_before_month y m + last_day y m
unfolding days_before_month
days_before_month-suc y zero h = elim h [ ]
days_before_month-suc y (suc m) h = ground arith

year_length : ℕ → ℕ
unfolding is_leap
year_length y = if is_leap y then 366 else 365

days_before_december : (y : ℕ) → days_before_month y 12 + 31 ≡ year_length y
unfolding days_before_month last_day year_length is_leap
days_before_december y = ground arith

before_year : ℕ → ℕ
before_year y = let p = y - 1 in p * 365 + p / 4 - p / 100 + p / 400

before_year-suc : (y : ℕ) → 1 ≤ y → before_year (y + 1) ≡ before_year y + year_length y
unfolding before_year year_length is_leap
before_year-suc y h = ground arith

to_ordinal_lem :
    (d : Date) → to_ordinal d ≡ before_year d.year + days_before_month d.year d.month + d.day
unfolding to_ordinal before_year
to_ordinal_lem d = refl

days_before_first : (y : ℕ) → days_before_month y 1 ≡ 0
unfolding days_before_month
days_before_first y = refl

last_day-december : (y : ℕ) → last_day y 12 ≡ 31
unfolding last_day
last_day-december y = refl

-- The day after has the next ordinal.
pub to_ordinal-next_day : (d : Date) → IsDate d → to_ordinal (next_day d) ≡ to_ordinal d + 1
unfolding next_day
to_ordinal-next_day d v = ground (
  arith,
  to_ordinal_lem d,
  to_ordinal_lem (date d.year d.month (d.day + 1)),
  to_ordinal_lem (date d.year (d.month + 1) 1),
  to_ordinal_lem (date (d.year + 1) 1 1),
  days_before_month-suc d.year d.month,
  before_year-suc d.year,
  days_before_december d.year,
  days_before_first (d.year + 1),
  last_day-december d.year,
)

-- `day + timedelta(days=n)` has the ordinal of the day, plus n.
pub to_ordinal-add_days :
    (n : ℕ) (d : Date) → IsDate d → to_ordinal (add_days n d) ≡ to_ordinal d + n
unfolding add_days
to_ordinal-add_days zero d v = omega arith
to_ordinal-add_days (suc n) d v =
    omega (arith, to_ordinal-add_days n (next_day d) (next_day-IsDate d v), to_ordinal-next_day d v)

pub isoweekday_bounds : (d : Date) → (1 ≤ isoweekday d) × (isoweekday d ≤ 7)
unfolding isoweekday
isoweekday_bounds d = ground arith

-- The steps forward, from one to seven, that lead from weekday `from` to weekday `to`.
pub days_to : ℕ → ℕ → ℕ
days_to from to = if ltb from to then to - from else to + 7 - from

pub days_to_bounds :
    (from to : ℕ)
    → 1 ≤ from
    → from ≤ 7
    → 1 ≤ to
    → to ≤ 7
    → (1 ≤ days_to from to) × (days_to from to ≤ 7)
unfolding days_to
days_to_bounds from to h1 h2 h3 h4 = ground arith

weekday_of : ℕ → ℕ
weekday_of n = let w = n % 7 in if w == 0 then 7 else w

weekday_of-add : (n k w : ℕ) → 1 ≤ w → w ≤ 7 → k ≡ days_to (weekday_of n) w → weekday_of (n + k) ≡ w
unfolding weekday_of days_to
weekday_of-add n k w h1 h2 e = ground arith

isoweekday_lem : (d : Date) (n : ℕ) → to_ordinal d ≡ n → isoweekday d ≡ weekday_of n
unfolding isoweekday weekday_of
isoweekday_lem d n e = rw e

-- Within seven days every weekday comes up.
pub isoweekday-days_to :
    (d : Date) (w : ℕ)
    → IsDate d
    → 1 ≤ w
    → w ≤ 7
    → isoweekday (add_days (days_to (isoweekday d) w) d) ≡ w
isoweekday-days_to d w v h1 h2 =
    let k = days_to (isoweekday d) w in
    isoweekday_lem (add_days k d) (to_ordinal d + k) (to_ordinal-add_days k d v)
    ∙ weekday_of-add (to_ordinal d) k w h1 h2
        (ap (λ x. days_to x w) (isoweekday_lem d (to_ordinal d) refl))
