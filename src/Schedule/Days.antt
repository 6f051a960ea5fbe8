-- ===== src/Schedule/Days.antt =====
-- `_normalize_days`: a sorted set of the days in range.
use native.Mathlib.Nat.{le_refl}
use python_workflow_service.Prelude.{
  ℕ, ◌≤◌, ◌<◌, ◌≡◌, refl, ◌⊎◌, inl, inr, Bool, true, false, ◌||◌, ◌&&◌, ◌∙◌, Bool-cases, Option,
  none, some, List, [], ◌∷◌, ℤ, pos, negsuc, All, arith, leb, ◌==◌, if◌then◌else◌, String,
}
use python_workflow_service.Value.{Value}
use python_workflow_service.Schedule.{
  insert_day, add_day, collect_days, day_number, normalize_days, entries, has_day,
  is_weekday_frequency,
}

-- Strictly ascending, from above `lo`.
abbrev pub AscendsFrom : ℕ → List ℕ → Type 0
AscendsFrom lo [] = Unit
AscendsFrom lo (n ∷ ns) = (lo < n) × AscendsFrom n ns

insert_day-AscendsFrom :
    (lo n : ℕ) (ns : List ℕ) → AscendsFrom lo ns → lo < n → AscendsFrom lo (insert_day n ns)
unfolding insert_day
insert_day-AscendsFrom lo n [] h p = (p, tt)
insert_day-AscendsFrom lo n (m ∷ ms) h p = ground (arith, insert_day-AscendsFrom m n ms h.1)

insert_day-All : (P : ℕ → Type 0) (n : ℕ) (ns : List ℕ) → All P ns → P n → All P (insert_day n ns)
unfolding insert_day
insert_day-All P n [] h p = (p, tt)
insert_day-All P n (m ∷ ms) h p = ground (arith, insert_day-All P n ms h.1 p)

has_day-insert_day :
    (k n : ℕ) (ns : List ℕ) → has_day k (insert_day n ns) ≡ ((n == k) || has_day k ns)
unfolding insert_day
has_day-insert_day k n [] = refl
has_day-insert_day k n (m ∷ ms) = ground (arith, has_day-insert_day k n ms)

or_true : (b : Bool) → (b || true) ≡ true
or_true true = refl
or_true false = refl

-- Some entry of the list names the day.
abbrev pub Names : ℕ → List Value → Type 0
Names n [] = ⊥
Names n (v ∷ vs) = (day_number v ≡ some (pos n)) ⊎ Names n vs

abbrev pub InRange : ℕ → ℕ → ℕ → Type 0
InRange low high n = (low ≤ n) × (n ≤ high)

module _ (low high : ℕ) (pos_low : 1 ≤ low) where
  add_day-AscendsFrom :
      (z : Option ℤ) (ns : List ℕ) → AscendsFrom 0 ns → AscendsFrom 0 (add_day low high z ns)
  unfolding add_day
  add_day-AscendsFrom none ns h = h
  add_day-AscendsFrom (some (negsuc n)) ns h = h
  add_day-AscendsFrom (some (pos n)) ns h = ground (arith, insert_day-AscendsFrom 0 n ns h)

  add_day-InRange :
      (z : Option ℤ) (ns : List ℕ)
      → All (InRange low high) ns
      → All (InRange low high) (add_day low high z ns)
  unfolding add_day
  add_day-InRange none ns h = h
  add_day-InRange (some (negsuc n)) ns h = h
  add_day-InRange (some (pos n)) ns h = ground (arith, insert_day-All (InRange low high) n ns h)

  pub collect_days_lem :
      (vs : List Value)
      → AscendsFrom 0 (collect_days low high vs) × All (InRange low high) (collect_days low high vs)
  unfolding collect_days
  collect_days_lem [] = (tt, tt)
  collect_days_lem (v ∷ vs) =
      let (sorted, ranged) = collect_days_lem vs in
      (add_day-AscendsFrom (day_number v) _ sorted, add_day-InRange (day_number v) _ ranged)

  has_day-add_day_keep :
      (n : ℕ) (z : Option ℤ) (ns : List ℕ)
      → has_day n ns ≡ true
      → has_day n (add_day low high z ns) ≡ true
  unfolding add_day
  has_day-add_day_keep n none ns h = h
  has_day-add_day_keep n (some (negsuc m)) ns h = h
  has_day-add_day_keep n (some (pos m)) ns h = elim (Bool-cases (leb low m && leb m high)) [
    | inl fits ↦ rw fits (has_day-insert_day n m ns ∙ rw h (or_true (m == n)))
    | inr misses ↦ rw misses h
  ]

  has_day-add_day_self :
      (n : ℕ) (ns : List ℕ)
      → InRange low high n
      → has_day n (add_day low high (some (pos n)) ns) ≡ true
  unfolding add_day
  has_day-add_day_self n ns r =
      let fits : (leb low n && leb n high) ≡ true = ground arith in
      let same : (n == n) ≡ true = ground arith in
      rw fits (has_day-insert_day n n ns ∙ rw same refl)

  has_day-add_day :
      (n : ℕ) (z : Option ℤ) (ns : List ℕ)
      → has_day n (add_day low high z ns) ≡ true
      → (z ≡ some (pos n)) ⊎ (has_day n ns ≡ true)
  unfolding add_day
  has_day-add_day n none ns h = inr h
  has_day-add_day n (some (negsuc m)) ns h = inr h
  has_day-add_day n (some (pos m)) ns h = elim (Bool-cases (leb low m && leb m high)) [
    | inl fits ↦
        let split : ((m == n) || has_day n ns) ≡ true =
          rw (has_day-insert_day n m ns) at (rw fits at h) in
        elim (Bool-cases (m == n)) [
          | inl same ↦ let e : m ≡ n = ground arith in inl (rw e)
          | inr other ↦ inr (rw other at split)
        ]
    | inr misses ↦ inr (rw misses at h)
  ]

  -- Each day in range that an entry names is kept.
  pub collect_days_complete :
      (n : ℕ) (vs : List Value)
      → InRange low high n
      → Names n vs
      → has_day n (collect_days low high vs) ≡ true
  unfolding collect_days
  collect_days_complete n [] r h = absurd h
  collect_days_complete n (v ∷ vs) r (inl here) =
      rw here (has_day-add_day_self n (collect_days low high vs) r)
  collect_days_complete n (v ∷ vs) r (inr there) =
      has_day-add_day_keep n (day_number v) _ (collect_days_complete n vs r there)

  -- Each day that is kept was named by an entry.
  pub collect_days_sound :
      (n : ℕ) (vs : List Value) → has_day n (collect_days low high vs) ≡ true → Names n vs
  unfolding collect_days
  collect_days_sound n [] h = cc
  collect_days_sound n (v ∷ vs) h =
      elim (has_day-add_day n (day_number v) (collect_days low high vs) h) [
        | inl here ↦ inl here
        | inr there ↦ inr (collect_days_sound n vs there)
      ]

abbrev pub last_listed : String → ℕ
last_listed frequency = if is_weekday_frequency frequency then 7 else 28

-- The normalised days ascend strictly, lie from 1 to 7 for a weekly or fortnightly frequency and
-- from 1 to 28 otherwise, and are exactly the days of that range that some entry names, by number
-- or by weekday.
pub normalize_days_lem :
    (raw : Value) (frequency : String)
    → AscendsFrom 0 (normalize_days raw frequency)
      × All (InRange 1 (last_listed frequency)) (normalize_days raw frequency)
      × ((n : ℕ)
          → (has_day n (normalize_days raw frequency) ≡ true → Names n (entries raw))
            × (InRange 1 (last_listed frequency) n
                → Names n (entries raw)
                → has_day n (normalize_days raw frequency) ≡ true))
unfolding normalize_days
normalize_days_lem raw frequency =
    let (sorted, ranged) = collect_days_lem 1 (last_listed frequency) (le_refl 1) (entries raw) in
    (
      sorted,
      ranged,
      λ n. (
        collect_days_sound 1 (last_listed frequency) (le_refl 1) n (entries raw),
        collect_days_complete 1 (last_listed frequency) (le_refl 1) n (entries raw),
      ),
    )
