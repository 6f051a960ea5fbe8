-- ===== src/Schedule/Occurrence.antt =====
-- `next_occurrence`: the next recurring visit.
use mathlib.Core.Path.{subst}
use python_workflow_service.Prelude.{
  ℕ, ◌+◌, ◌*◌, ◌≤◌, ◌≡◌, refl, sym, true, false, List, [], ◌∷◌, String, All, arith, Bool-cases, inl,
  inr, lookup, get_or_else, str_eq, eq_iff,
}
use python_workflow_service.Calendar.{Date, date_ltb, add_days, add_months, replace_day}
use python_workflow_service.Calendar.Laws.{
  IsDate, date_ltb_iff, add_days-IsDate, add_days_later, add_months-IsDate, add_months_later,
  add_months_index, last_day_bounds,
}
use python_workflow_service.Value.{Value}
use python_workflow_service.Schedule.{
  day_steps, month_steps, normalize_days, next_weekday, next_month_day, next_occurrence,
  is_weekday_frequency,
}
use python_workflow_service.Schedule.Days.{InRange, normalize_days_lem}
use python_workflow_service.Schedule.Visits.{month_steps_pos}
use python_workflow_service.Schedule.Weekdays.{IsFirst, next_weekday_lem}

-- In the branch for months the test for a date that is not later never holds: the candidate is
-- already in a later month.
next_month_day_lem :
    (after : Date) (months n : ℕ) (days : List ℕ)
    → IsDate after
    → 1 ≤ months
    → InRange 1 28 n
    → IsDate (replace_day (add_months after months) n)
      × (date_ltb after (replace_day (add_months after months) n) ≡ true)
      × (next_month_day after months (n ∷ days) ≡ replace_day (add_months after months) n)
unfolding next_month_day
next_month_day_lem after months n days v h r =
    let nxt = add_months after months in
    let w = add_months-IsDate after months v in
    let candidate = replace_day nxt n in
    let cv : IsDate candidate = record {
      year_pos = w.year_pos;
      month_pos = w.month_pos;
      month_le = w.month_le;
      day_pos = r.0;
      day_le = omega (arith, r.1, last_day_bounds nxt.year nxt.month);
    } in
    let later = (date_ltb_iff after candidate v cv).1 (
      omega (
        arith,
        add_months_index after months v.month_pos,
        last_day_bounds after.year after.month,
        v.day_le,
        v.month_le,
        w.month_le,
        w.month_pos,
        r.0,
      )) in
    (cv, later, rw (later, next_month_day) refl)

weekday_span :
    (frequency : String)
    → is_weekday_frequency frequency ≡ true
    → 7 ≤ get_or_else (lookup frequency day_steps) 7
weekday_span frequency h = elim (Bool-cases (str_eq "daily" frequency)) [
  | inl daily ↦ absurd (not_daily ((eq_iff "daily" frequency).0 daily))
  | inr other ↦ rw other (ground arith)
]
  where
    not_daily : "daily" ≡ frequency → ⊥
    not_daily e = let k = subst (λ f. is_weekday_frequency f ≡ true) (sym e) h in cc

-- What `next_occurrence` gives for a weekly or fortnightly frequency, and for another.
abbrev Later : Date → Date → Type 0
Later after d = IsDate d × (date_ltb after d ≡ true)

add_days-Later : (n : ℕ) (after : Date) → IsDate after → 1 ≤ n → Later after (add_days n after)
add_days-Later n after v h =
    let w = add_days-IsDate n after v in
    (w, (date_ltb_iff after (add_days n after) v w).1 (omega (arith, add_days_later n after v)))

next_weekday-Later :
    (after : Date) (span : ℕ) (days : List ℕ)
    → IsDate after
    → 7 ≤ span
    → All (InRange 1 7) days
    → Later after (next_weekday after span days)
unfolding next_weekday
next_weekday-Later after span [] v h r = add_days-Later span after v (omega arith)
next_weekday-Later after span (n ∷ days) v h r =
    let first = next_weekday_lem after span n days v h r.0 in
    subst (Later after) (sym first.found_at)
      (add_days-Later first.k after v (omega (arith, first.from)))

next_month_day-Later :
    (after : Date) (months : ℕ) (days : List ℕ)
    → IsDate after
    → 1 ≤ months
    → All (InRange 1 28) days
    → Later after (next_month_day after months days)
unfolding next_month_day
next_month_day-Later after months [] v h r =
    let w = add_months-IsDate after months v in
    (w, (date_ltb_iff after (add_months after months) v w).1 (add_months_later after months v h))
next_month_day-Later after months (n ∷ days) v h r =
    let (cv, later, same) = next_month_day_lem after months n days v h r.0 in
    subst (Later after) (sym same) (cv, later)

-- From a valid date, for every frequency text and every list of days, the next occurrence is a
-- valid date and strictly later.
pub next_occurrence_later :
    (after : Date) (frequency : String) (days : Value)
    → IsDate after
    → IsDate (next_occurrence after frequency days)
      × (date_ltb after (next_occurrence after frequency days) ≡ true)
unfolding next_occurrence
next_occurrence_later after frequency days v =
    let ranged = (normalize_days_lem days frequency).1 in
    elim (Bool-cases (is_weekday_frequency frequency)) [
      | inl weekly ↦ rw weekly (
          next_weekday-Later after _ (normalize_days days frequency) v
            (weekday_span frequency weekly) (rw weekly at ranged))
      | inr monthly ↦ rw monthly (
          next_month_day-Later after _ (normalize_days days frequency) v
            (month_steps_pos frequency 1 (omega arith)) (rw monthly at ranged))
    ]

-- For a weekly or fortnightly frequency with a day from 1 to 7 listed, the next occurrence is the
-- first listed weekday after the date, and at most seven days later: both frequencies agree.
pub next_occurrence_weekday :
    (after : Date) (frequency : String) (raw : Value) (n : ℕ) (days : List ℕ)
    → IsDate after
    → is_weekday_frequency frequency ≡ true
    → normalize_days raw frequency ≡ n ∷ days
    → IsFirst 7 1 after (n ∷ days) (next_occurrence after frequency raw)
unfolding next_occurrence
next_occurrence_weekday after frequency raw n days v weekly listed =
    let ranged = (normalize_days_lem raw frequency).1 in
    let in_week : All (InRange 1 7) (n ∷ days) = rw listed at (rw weekly at ranged) in
    rw (weekly, listed)
      (next_weekday_lem after _ n days v (weekday_span frequency weekly) in_week.0)

-- For any other frequency with a day from 1 to 28 listed, the next occurrence has the smallest
-- listed day, in the month that the frequency's step leads to, or in the next month for a text
-- that is no month frequency.
pub next_occurrence_month_day :
    (after : Date) (frequency : String) (raw : Value) (n : ℕ) (days : List ℕ)
    → IsDate after
    → is_weekday_frequency frequency ≡ false
    → normalize_days raw frequency ≡ n ∷ days
    → let result = next_occurrence after frequency raw in
      (result.day ≡ n)
      × (result.year * 12 + result.month
          ≡ after.year * 12 + after.month + get_or_else (lookup frequency month_steps) 1)
unfolding next_occurrence
next_occurrence_month_day after frequency raw n days v monthly listed =
    let ranged = (normalize_days_lem raw frequency).1 in
    let in_month : All (InRange 1 28) (n ∷ days) = rw listed at (rw monthly at ranged) in
    let months = get_or_else (lookup frequency month_steps) 1 in
    let (cv, later, same) =
      next_month_day_lem after months n days v (month_steps_pos frequency 1 (omega arith))
        in_month.0 in
    rw (monthly, listed, same) (refl, add_months_index after months v.month_pos)
