-- ===== src/Schedule/Visits/Contract.antt =====
-- The visits of a contract, from its columns.
use mathlib.Core.Path.{subst}
use python_workflow_service.Prelude.{
  ℕ, zero, suc, ◌+◌, ◌≤◌, ◌<◌, ◌≡◌, refl, ◌||◌, true, false, Option, none, some, String, All, arith,
  length, Bool-cases, inl, inr,
}
use python_workflow_service.Calendar.{Date, date_ltb, add_days, date_max, to_ordinal}
use python_workflow_service.Calendar.Laws.{IsDate, rank, date_ltb_iff}
use python_workflow_service.Calendar.Weekday.{to_ordinal-add_days}
use python_workflow_service.Value.Dict.{Row, get}
use python_workflow_service.Schedule.{
  step, past_end, visits_from, first_visit, iter_visit_dates, parse_d, visit_frequency,
}
use python_workflow_service.Schedule.Visits.{
  step_later, steps_from, take_until, Ascends, visits_from-take_until, visits_from-Within,
  visits_from-IsDate, visits_from-Ascends, length-visits_from,
}

abbrev pub IsDateOption : Option Date → Type 0
IsDateOption none = Unit
IsDateOption (some d) = IsDate d

date_max-IsDate : (a b : Date) → IsDate a → IsDate b → IsDate (date_max a b)
date_max-IsDate a b p q = elim (Bool-cases (date_ltb a b)) [ inl lt ↦ rw lt q | inr ge ↦ rw ge p ]

rank-le-date_max :
    (a b : Date)
    → IsDate a
    → IsDate b
    → (rank a ≤ rank (date_max a b)) × (rank b ≤ rank (date_max a b))
rank-le-date_max a b p q = elim (Bool-cases (date_ltb a b)) [
  | inl lt ↦ let h = (date_ltb_iff a b p q).0 lt in rw lt (omega arith, omega arith)
  | inr ge ↦ rw ge (omega arith, not_later a b p q ge)
]
  where
    not_later : (a b : Date) → IsDate a → IsDate b → date_ltb a b ≡ false → rank b ≤ rank a
    not_later a b p q ge = ground (arith, date_ltb_iff a b p q)

first_visit_lem :
    (start : Date) (last : Option Date) (frequency : String)
    → IsDate start
    → IsDateOption last
    → IsDate (first_visit start last frequency)
      × ((last ≡ none → first_visit start last frequency ≡ start)
          × ((l : Date)
              → last ≡ some l
              → (date_ltb l (first_visit start last frequency) ≡ true)
                × (date_ltb start (first_visit start last frequency) ≡ true)))
unfolding first_visit
first_visit_lem start none frequency v w = (v, (λ e. refl, λ l e. absurd (cc)))
first_visit_lem start (some l) frequency v w =
    let m = date_max start l in
    let mv = date_max-IsDate start l v w in
    let (sv, later) = step_later m frequency mv in
    let (above_start, above_last) = rank-le-date_max start l v w in
    let from_start = (date_ltb_iff start (step m frequency) v sv).1 (omega arith) in
    let from_last = (date_ltb_iff l (step m frequency) w sv).1 (omega arith) in
    (
      sv,
      (
        λ e. absurd (cc),
        λ k e.
            let same : l ≡ k = cc in
            (subst (λ x. date_ltb x (step m frequency) ≡ true) same from_last, from_start),
      ),
    )

-- Once a service is recorded, the first visit is a valid date later than both the start date and the
-- last service.
pub first_visit_later :
    (start last : Date) (frequency : String)
    → IsDate start
    → IsDate last
    → IsDate (first_visit start (some last) frequency)
      × (date_ltb last (first_visit start (some last) frequency) ≡ true)
      × (date_ltb start (first_visit start (some last) frequency) ≡ true)
first_visit_later start last frequency v w =
    let (valid, cases) = first_visit_lem start (some last) frequency v w in
    let (after_last, after_start) = cases.1 last refl in (valid, after_last, after_start)

iter_visit_dates-some :
    (contract : Row) (today start : Date)
    → parse_d (get contract "start_date") ≡ some start
    → iter_visit_dates contract today
      ≡ visits_from 1000
          (parse_d (get contract "end_date"))
          (add_days 1830 today)
          (visit_frequency contract)
          (first_visit start
            (parse_d (get contract "last_serviced_date"))
            (visit_frequency contract))
unfolding iter_visit_dates
iter_visit_dates-some contract today start e = rw (e, iter_visit_dates)

module _ (contract : Row) (today start : Date) where
  -- With valid dates in the contract's columns, the visits are the first 1000 steps from the first
  -- visit, cut at the first date past the end or the horizon; they are valid dates that ascend
  -- strictly, none is past the end or the horizon, and there are at most 1000 of them.
  pub iter_visit_dates_lem :
      parse_d (get contract "start_date") ≡ some start
      → IsDate start
      → IsDateOption (parse_d (get contract "last_serviced_date"))
      → let last = parse_d (get contract "last_serviced_date") in
        let end = parse_d (get contract "end_date") in
        let frequency = visit_frequency contract in
        let horizon = add_days 1830 today in
        let visits = iter_visit_dates contract today in
        (visits
          ≡ take_until
              (λ v. past_end end v || date_ltb horizon v)
              (steps_from 1000 frequency (first_visit start last frequency)))
        × Ascends visits
        × All IsDate visits
        × All (λ v. (past_end end v ≡ false) × (date_ltb horizon v ≡ false)) visits
        × (length visits ≤ 1000)
  iter_visit_dates_lem e v w =
      let last = parse_d (get contract "last_serviced_date") in
      let end = parse_d (get contract "end_date") in
      let frequency = visit_frequency contract in
      let horizon = add_days 1830 today in
      let first = first_visit start last frequency in
      let fv = (first_visit_lem start last frequency v w).0 in
      rw (iter_visit_dates-some contract today start e) (
        visits_from-take_until 1000 end horizon frequency first,
        visits_from-Ascends end horizon frequency 1000 first fv,
        visits_from-IsDate end horizon frequency 1000 first fv,
        visits_from-Within end horizon frequency 1000 first,
        length-visits_from end horizon frequency 1000 first,
      )

step-daily : (d : Date) → IsDate d → to_ordinal (step d "daily") ≡ to_ordinal d + 1
unfolding step
step-daily d v = to_ordinal-add_days 1 d v

visits_from-daily :
    (n : ℕ) (end : Option Date) (horizon d : Date)
    → IsDate d
    → (bound : ℕ) → to_ordinal d + n ≤ bound
    → All (λ v. to_ordinal v < bound) (visits_from n end horizon "daily" d)
unfolding visits_from
visits_from-daily zero end horizon d v bound h = tt
visits_from-daily (suc n) end horizon d v bound h =
    let rest =
      visits_from-daily n end horizon (step d "daily") (step_later d "daily" v).0 bound
        (omega (arith, step-daily d v)) in
    elim (Bool-cases (past_end end d || date_ltb horizon d)) [
      | inl stop ↦ rw stop tt
      | inr go ↦ rw go (omega arith, rest)
    ]

-- A contract that is visited daily and has no recorded service has no visit from the 1000th day
-- after its start date on, whatever the day of the run.
pub daily_visits_stop :
    (contract : Row) (today start : Date)
    → parse_d (get contract "start_date") ≡ some start
    → IsDate start
    → parse_d (get contract "last_serviced_date") ≡ none
    → visit_frequency contract ≡ "daily"
    → All (λ v. to_ordinal v < to_ordinal start + 1000) (iter_visit_dates contract today)
unfolding first_visit
daily_visits_stop contract today start e v none_yet daily =
    rw (iter_visit_dates-some contract today start e, none_yet, daily)
      (visits_from-daily 1000 (parse_d (get contract "end_date")) (add_days 1830 today) start v
        (to_ordinal start + 1000) (omega arith))
