-- ===== src/Calendar/Laws.antt =====
-- The laws of the calendar: valid dates, their order, and steps by days and by months.

use python_workflow_service.Prelude.{
  ℕ, zero, suc, ◌+◌, ◌-◌, ◌*◌, ◌/◌, ◌%◌, ◌≤◌, ◌<◌, ◌≡◌, ◌↔◌, true, arith,
}
use python_workflow_service.Calendar.{Date, last_day, date_ltb, next_day, add_days, add_months}

-- A date that Python can hold, but for the bound on the year.
pub record IsDate (d : Date) : Type 0 where
  pub year_pos : 1 ≤ d.year
  pub month_pos : 1 ≤ d.month
  pub month_le : d.month ≤ 12
  pub day_pos : 1 ≤ d.day
  pub day_le : d.day ≤ last_day d.year d.month

pub last_day_bounds : (y m : ℕ) → (28 ≤ last_day y m) × (last_day y m ≤ 31)
unfolding last_day
last_day_bounds y m = ground arith

-- A number that grows with the date.
abbrev pub rank : Date → ℕ
rank d = (d.year * 13 + d.month) * 32 + d.day

pub date_ltb_iff : (a b : Date) → IsDate a → IsDate b → (date_ltb a b ≡ true) ↔ (rank a < rank b)
date_ltb_iff a b p q =
    ground (arith, last_day_bounds a.year a.month, last_day_bounds b.year b.month)

pub next_day-IsDate : (d : Date) → IsDate d → IsDate (next_day d)
unfolding next_day
next_day-IsDate d v =
    ground (arith, last_day_bounds d.year (d.month + 1), last_day_bounds (d.year + 1) 1)

pub next_day_later : (d : Date) → IsDate d → rank d < rank (next_day d)
unfolding next_day
next_day_later d v = ground (arith, last_day_bounds d.year d.month)

pub add_days-IsDate : (n : ℕ) (d : Date) → IsDate d → IsDate (add_days n d)
unfolding add_days
add_days-IsDate zero d v = v
add_days-IsDate (suc n) d v = add_days-IsDate n (next_day d) (next_day-IsDate d v)

pub add_days_later : (n : ℕ) (d : Date) → IsDate d → rank d + n ≤ rank (add_days n d)
unfolding add_days
add_days_later zero d v = omega arith
add_days_later (suc n) d v =
    omega (arith, next_day_later d v, add_days_later n (next_day d) (next_day-IsDate d v))

pub add_months-IsDate : (d : Date) (k : ℕ) → IsDate d → IsDate (add_months d k)
unfolding add_months
add_months-IsDate d k v =
    ground (arith, last_day_bounds (d.year + (d.month - 1 + k) / 12) ((d.month - 1 + k) % 12 + 1))

-- Months count on through the years.
pub add_months_index :
    (d : Date) (k : ℕ)
    → 1 ≤ d.month
    → (add_months d k).year * 12 + (add_months d k).month ≡ d.year * 12 + d.month + k
unfolding add_months
add_months_index d k h = omega arith

pub add_months_later : (d : Date) (k : ℕ) → IsDate d → 1 ≤ k → rank d < rank (add_months d k)
add_months_later d k v h =
    let w = add_months-IsDate d k v in
    omega (
      arith,
      add_months_index d k v.month_pos,
      last_day_bounds d.year d.month,
      w.month_pos,
      w.month_le,
      w.day_pos,
      v.day_le,
      v.month_le,
    )
