-- ===== src/Schedule/Weekdays.antt =====
-- The first listed weekday after a date.
use mathlib.Core.Path.{subst}
use python_workflow_service.Prelude.{
  ℕ, zero, suc, ◌+◌, ◌≤◌, ◌<◌, ◌≡◌, refl, ◌≢◌, sym, Bool, true, false, some, List, ◌∷◌, arith,
  Bool-cases, inl, inr, ltb, ◌==◌,
}
use python_workflow_service.Calendar.{Date, add_days, isoweekday}
use python_workflow_service.Calendar.Laws.{IsDate}
use python_workflow_service.Calendar.Weekday.{
  days_to, days_to_bounds, isoweekday_bounds, isoweekday-days_to,
}
use python_workflow_service.Schedule.{first_weekday, next_weekday, has_day}
use python_workflow_service.Schedule.Days.{InRange}

-- `first` is the first offset, of `rounds` from `offset` on, whose weekday is listed.
pub record IsFirst (rounds offset : ℕ) (after : Date) (days : List ℕ) (found : Date) : Type 0 where
  pub k : ℕ
  pub from : offset ≤ k
  pub below : k < offset + rounds
  pub found_at : found ≡ add_days k after
  pub listed : has_day (isoweekday found) days ≡ true
  pub none_before :
      (j : ℕ) → offset ≤ j → j < k → has_day (isoweekday (add_days j after)) days ≡ false

-- If some offset in reach has a listed weekday, the loop finds the first one.
first_weekday_lem :
    (rounds offset : ℕ) (after : Date) (days : List ℕ) (k : ℕ)
    → offset ≤ k
    → k < offset + rounds
    → has_day (isoweekday (add_days k after)) days ≡ true
    → (found : Date) × (first_weekday rounds offset after days ≡ some found)
      × IsFirst rounds offset after days found
unfolding first_weekday
first_weekday_lem zero offset after days k p q h = absurd (omega arith)
first_weekday_lem (suc rounds) offset after days k p q h =
    elim (Bool-cases (has_day (isoweekday (add_days offset after)) days)) [
      | inl here ↦ (
        add_days offset after,
        rw here refl,
        record {
          k = offset;
          from = omega arith;
          below = omega arith;
          found_at = refl;
          listed = here;
          none_before = λ j a b. absurd (omega arith);
        },
      )
      | inr miss ↦
          let apart : offset ≢ k = λ e. ne_of_miss offset k e miss h in
          let (found, run, first) =
            first_weekday_lem rounds (offset + 1) after days k (omega arith) (omega arith) h in
          (
            found,
            rw miss run,
            record {
              k = first.k;
              from = omega (arith, first.from);
              below = omega (arith, first.below);
              found_at = first.found_at;
              listed = first.listed;
              none_before = λ j a b. earlier first.k first.none_before miss j a b;
            },
          )
    ]
  where
    ne_of_miss :
        (i j : ℕ)
        → i ≡ j
        → has_day (isoweekday (add_days i after)) days ≡ false
        → has_day (isoweekday (add_days j after)) days ≡ true
        → ⊥
    ne_of_miss i j e a b =
        let c = subst (λ x. has_day (isoweekday (add_days x after)) days ≡ false) e a in cc

    earlier :
        (m : ℕ)
        → ((j : ℕ) → offset + 1 ≤ j → j < m → has_day (isoweekday (add_days j after)) days ≡ false)
        → has_day (isoweekday (add_days offset after)) days ≡ false
        → (j : ℕ) → offset ≤ j
        → j < m
        → has_day (isoweekday (add_days j after)) days ≡ false
    earlier m rest miss j a b = elim (Bool-cases (j == offset)) [
      | inl same ↦
          let e : offset ≡ j = ground arith in
          subst (λ x. has_day (isoweekday (add_days x after)) days ≡ false) e miss
      | inr other ↦ rest j (ground arith) b
    ]

has_day-head : (n : ℕ) (days : List ℕ) → has_day n (n ∷ days) ≡ true
has_day-head n days = ground arith

-- With a listed day from 1 to 7 and at least seven rounds, the branch for weekdays finds the first
-- listed weekday after the date, within seven days, however long the span is.
pub next_weekday_lem :
    (after : Date) (span n : ℕ) (days : List ℕ)
    → IsDate after
    → 7 ≤ span
    → InRange 1 7 n
    → IsFirst 7 1 after (n ∷ days) (next_weekday after span (n ∷ days))
unfolding next_weekday
next_weekday_lem after span n days v long r =
    let k = days_to (isoweekday after) n in
    let (from_lo, from_hi) = isoweekday_bounds after in
    let (lo, hi) = days_to_bounds (isoweekday after) n from_lo from_hi r.0 r.1 in
    let hit : has_day (isoweekday (add_days k after)) (n ∷ days) ≡ true =
      subst (λ w. has_day w (n ∷ days) ≡ true) (sym (isoweekday-days_to after n v r.0 r.1))
        (has_day-head n days) in
    let (found, run, first) = first_weekday_lem span 1 after (n ∷ days) k lo (omega arith) hit in
    let within : first.k ≤ k = not_after first.k k (first.none_before k lo) hit in
    rw (run, next_weekday)
      (record {
        k = first.k;
        from = first.from;
        below = omega arith;
        found_at = first.found_at;
        listed = first.listed;
        none_before = first.none_before;
      })
  where
    not_after :
        (m k : ℕ)
        → (k < m → has_day (isoweekday (add_days k after)) (n ∷ days) ≡ false)
        → has_day (isoweekday (add_days k after)) (n ∷ days) ≡ true
        → m ≤ k
    not_after m k miss hit = elim (Bool-cases (ltb k m)) [
      | inl early ↦ absurd (false_of (miss (ground arith)) hit)
      | inr late ↦ ground arith
    ]
      where
        false_of : {b : Bool} → b ≡ false → b ≡ true → ⊥
        false_of p q = cc
