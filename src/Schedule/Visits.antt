-- ===== src/Schedule/Visits.antt =====
-- `_iter_visit_dates`: the visits are the steps from the first, up to the end and the horizon.
pub mod Contract
use python_workflow_service.Prelude.{
  ℕ, zero, suc, ◌+◌, ◌≤◌, ◌<◌, ◌≡◌, refl, ap, ◌∙◌, Bool, true, false, not, ◌&&◌, ◌||◌, Option, none,
  some, List, [], ◌∷◌, String, All, arith, length, length-take-le, if◌then◌else◌, Bool-cases, inl,
  inr, lookup, get_or_else, lookup-All, Option-cases,
}
use python_workflow_service.Calendar.{Date, date_ltb, add_days, add_months, date_max}
use python_workflow_service.Calendar.Laws.{
  IsDate, rank, date_ltb_iff, add_days-IsDate, add_days_later, add_months-IsDate, add_months_later,
}
use python_workflow_service.Value.{Value}
use python_workflow_service.Value.Dict.{Row, get}
use python_workflow_service.Schedule.{
  step, past_end, visits_from, first_visit, iter_visit_dates, parse_d, max_visits, day_steps,
  month_steps, horizon_days, visit_frequency,
}

pub day_steps_pos : (frequency : String) {n : ℕ} → lookup frequency day_steps ≡ some n → 1 ≤ n
day_steps_pos frequency h = lookup-All (λ n. 1 ≤ n) frequency day_steps (omega arith) h

pub month_steps_pos :
    (frequency : String) (d : ℕ) → 1 ≤ d → 1 ≤ get_or_else (lookup frequency month_steps) d
month_steps_pos frequency d p = elim (Option-cases (lookup frequency month_steps)) [
  | inl missing ↦ rw missing p
  | inr (n, found) ↦ rw found (lookup-All (λ n. 1 ≤ n) frequency month_steps (omega arith) found)
]

-- A step goes to a later date, whatever the frequency.
pub step_later :
    (d : Date) (frequency : String)
    → IsDate d
    → IsDate (step d frequency) × (rank d < rank (step d frequency))
unfolding step
step_later d frequency v = elim (Option-cases (lookup frequency day_steps)) [
  | inl months ↦
      let k = get_or_else (lookup frequency month_steps) 3 in
      rw (months, step)
        (
          add_months-IsDate d k v,
          add_months_later d k v (month_steps_pos frequency 3 (omega arith)),
        )
  | inr (n, days) ↦
      rw (days, step)
        (add_days-IsDate n d v, omega (arith, add_days_later n d v, day_steps_pos frequency days))
]

-- The reference: the first `n` of a date and the steps from it.
pub steps_from : ℕ → String → Date → List Date
steps_from zero frequency d = []
steps_from (suc n) frequency d = d ∷ steps_from n frequency (step d frequency)

abbrev pub take_until : (Date → Bool) → List Date → List Date
take_until stop [] = []
take_until stop (d ∷ ds) = let rest = take_until stop ds in if stop d then [] else d ∷ rest

-- Each date is later than the one before, by Python's order.
abbrev pub Ascends : List Date → Type 0
Ascends [] = Unit
Ascends (d ∷ []) = Unit
Ascends (d ∷ e ∷ ds) = (date_ltb d e ≡ true) × Ascends (e ∷ ds)

pub visits_from-take_until :
    (n : ℕ) (end : Option Date) (horizon : Date) (frequency : String) (d : Date)
    → visits_from n end horizon frequency d
      ≡ take_until (λ v. past_end end v || date_ltb horizon v) (steps_from n frequency d)
unfolding visits_from steps_from
visits_from-take_until zero end horizon frequency d = refl
visits_from-take_until (suc n) end horizon frequency d =
    rw (visits_from-take_until n end horizon frequency (step d frequency)) refl

module _ (end : Option Date) (horizon : Date) (frequency : String) where
  abbrev Within : Date → Type 0
  Within v = (past_end end v ≡ false) × (date_ltb horizon v ≡ false)

  visits_from-Within : (n : ℕ) (d : Date) → All Within (visits_from n end horizon frequency d)
  unfolding visits_from
  visits_from-Within zero d = tt
  visits_from-Within (suc n) d = elim (Bool-cases (past_end end d || date_ltb horizon d)) [
    | inl stop ↦ rw stop tt
    | inr go ↦ rw go ((ground arith, ground arith), visits_from-Within n (step d frequency))
  ]

  visits_from-IsDate :
      (n : ℕ) (d : Date) → IsDate d → All IsDate (visits_from n end horizon frequency d)
  unfolding visits_from
  visits_from-IsDate zero d v = tt
  visits_from-IsDate (suc n) d v = elim (Bool-cases (past_end end d || date_ltb horizon d)) [
    | inl stop ↦ rw stop tt
    | inr go ↦ rw go (v, visits_from-IsDate n (step d frequency) (step_later d frequency v).0)
  ]

  length-visits_from : (n : ℕ) (d : Date) → length (visits_from n end horizon frequency d) ≤ n
  unfolding visits_from
  length-visits_from zero d = omega arith
  length-visits_from (suc n) d = ground (arith, length-visits_from n (step d frequency))

  Ascends-cons :
      (d : Date) (n : ℕ)
      → IsDate d
      → Ascends (visits_from n end horizon frequency (step d frequency))
      → Ascends (d ∷ visits_from n end horizon frequency (step d frequency))
  unfolding visits_from
  Ascends-cons d zero v h = tt
  Ascends-cons d (suc n) v h =
      let e = step d frequency in
      let (w, later) = step_later d frequency v in
      elim (Bool-cases (past_end end e || date_ltb horizon e)) [
        | inl stop ↦ rw stop tt
        | inr go ↦ rw go ((date_ltb_iff d e v w).1 later, rw go at h)
      ]

  visits_from-Ascends :
      (n : ℕ) (d : Date) → IsDate d → Ascends (visits_from n end horizon frequency d)
  unfolding visits_from
  visits_from-Ascends zero d v = tt
  visits_from-Ascends (suc n) d v = elim (Bool-cases (past_end end d || date_ltb horizon d)) [
    | inl stop ↦ rw stop tt
    | inr go ↦
        rw go (
          Ascends-cons d n v
            (visits_from-Ascends n (step d frequency) (step_later d frequency v).0))
  ]
