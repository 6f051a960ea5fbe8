-- ===== src/Scheduler/Generation/Dates.antt =====
-- The dates that the work orders of a contract use, and those that are missing.

use text.Mathlib.TextPositions.{eq_refl}
use python_workflow_service.Prelude.{
  suc, ◌+◌, String, ◌≡◌, refl, ap, Bool, true, false, ◌||◌, ◌&&◌, List, [], ◌∷◌, ◌++◌, map, length,
  All, arith, Bool-cases, inl, inr,
}
use python_workflow_service.Calendar.{Date}
use python_workflow_service.Calendar.Iso.{isoformat, prefix-isoformat}
use python_workflow_service.Value.{py_str, truthy}
use python_workflow_service.Value.Dict.{Row, get}
use python_workflow_service.Crud.WorkOrders.{uses_schedule, schedule_dates}
use python_workflow_service.Scheduler.Data.{has_text}
use python_workflow_service.Scheduler.Generation.{AreVisits, is_used, missing, used}

pub or_true : (b : Bool) → (b || true) ≡ true
or_true true = refl
or_true false = refl

pub has_text-append :
    (xs ys : List String) (s : String) → has_text (xs ++ ys) s ≡ (has_text xs s || has_text ys s)
has_text-append [] ys s = refl
has_text-append (x ∷ xs) ys s = ground (arith, has_text-append xs ys s)

pub schedule_dates-append :
    (p : Row → Bool) (rs ss : List Row)
    → schedule_dates p (rs ++ ss) ≡ schedule_dates p rs ++ schedule_dates p ss
unfolding schedule_dates
schedule_dates-append p [] ss = refl
schedule_dates-append p (r ∷ rs) ss = elim (Bool-cases (p r && truthy (get r "scheduled_date"))) [
  | inl counts ↦ rw (counts, schedule_dates-append p rs ss) refl
  | inr ignored ↦ rw ignored (schedule_dates-append p rs ss)
]

-- The dates that the new work orders use are those they were made for.
pub schedule_dates-AreVisits :
    (contract_id : String) (vs : List Date) (rs : List Row)
    → AreVisits contract_id vs rs
    → schedule_dates (uses_schedule contract_id) rs ≡ map isoformat vs
unfolding schedule_dates py_str
schedule_dates-AreVisits contract_id [] [] h = refl
schedule_dates-AreVisits contract_id (v ∷ vs) (r ∷ rs) (h, hs) =
    rw (h.used, h.scheduled, prefix-isoformat v, schedule_dates-AreVisits contract_id vs rs hs) refl
schedule_dates-AreVisits contract_id [] (r ∷ rs) h = absurd h
schedule_dates-AreVisits contract_id (v ∷ vs) [] h = absurd h

-- Once the missing visits are added, all visits are used.
pub All-used :
    (existing full : List String) (vs : List Date)
    → ((s : String) → has_text existing s ≡ true → has_text full s ≡ true)
    → ((s : String)
        → has_text (map isoformat (missing existing vs)) s ≡ true
        → has_text full s ≡ true)
    → All (λ v. is_used full v ≡ true) vs
All-used existing full [] old new = tt
All-used existing full (v ∷ vs) old new = elim (Bool-cases (is_used existing v)) [
  | inl here ↦ (old (isoformat v) here, All-used existing full vs old (λ s h. new s (rw here h)))
  | inr free ↦ (
    new (isoformat v) (rw free (rw (eq_refl (isoformat v)) refl)),
    All-used existing full vs old (λ s h. new s (rw free (later (isoformat v) s _ h))),
  )
]
  where
    later : (x s : String) (l : List String) → has_text l s ≡ true → has_text (x ∷ l) s ≡ true
    later x s l h = ground arith

pub missing_none :
    (full : List String) (vs : List Date)
    → All (λ v. is_used full v ≡ true) vs
    → missing full vs ≡ []
missing_none full [] h = refl
missing_none full (v ∷ vs) (h, hs) = rw h (missing_none full vs hs)

pub used-All :
    (full : List String) (vs : List Date) → All (λ v. is_used full v ≡ true) vs → used full vs ≡ vs
used-All full [] h = refl
used-All full (v ∷ vs) (h, hs) = rw h (ap (λ l. v ∷ l) (used-All full vs hs))

pub length-missing-used :
    (existing : List String) (vs : List Date)
    → length (missing existing vs) + length (used existing vs) ≡ length vs
length-missing-used existing [] = omega arith
length-missing-used existing (v ∷ vs) = ground (arith, length-missing-used existing vs)

pub length-AreVisits :
    (contract_id : String) (vs : List Date) (rs : List Row)
    → AreVisits contract_id vs rs
    → length rs ≡ length vs
length-AreVisits contract_id [] [] h = refl
length-AreVisits contract_id (v ∷ vs) (r ∷ rs) h = ap suc (length-AreVisits contract_id vs rs h.1)
length-AreVisits contract_id [] (r ∷ rs) h = absurd h
length-AreVisits contract_id (v ∷ vs) [] h = absurd h
