-- ===== src/Scheduler/Generation.antt =====
-- The loop of `_generate_for_contract`: it makes the due visits that no work order uses.
pub mod Dates
pub mod Repeat
use mathlib.Core.List.{append_assoc, append-nil}
use python_workflow_service.Prelude.{
  ℕ, suc, ◌+◌, String, ◌≡◌, refl, sym, ap, ◌∙◌, Bool, true, false, not, ◌&&◌, Option, none, some,
  List, [], ◌∷◌, ◌++◌, map, length, filter, arith, Bool-cases, inl, inr, if◌then◌else◌,
}
use python_workflow_service.Calendar.{Date, date_ltb, add_days}
use python_workflow_service.Calendar.Iso.{isoformat, prefix-isoformat}
use python_workflow_service.Value.{Value, str, on, py_str}
use python_workflow_service.Value.Dict.{Row, get}
use python_workflow_service.Store.{Table, Db, Env, ok, work_orders, ◌>>=◌, ◌>>◌}
use python_workflow_service.Crud.WorkOrders.{uses_schedule, schedule_dates}
use python_workflow_service.Schedule.Visits.{take_until}
use python_workflow_service.Scheduler.{generate_visit, generate_visits}
use python_workflow_service.Scheduler.Data.{Tally, note_future, has_text}
use python_workflow_service.Scheduler.Frame.{IsVisit, IsOther, Made, generate_visit_lem}

-- Row by row, upcoming work orders of the contract for the dates.
abbrev pub AreVisits : String → List Date → List Row → Type 0
AreVisits contract_id [] [] = Unit
AreVisits contract_id (v ∷ vs) (r ∷ rs) = IsVisit contract_id v r × AreVisits contract_id vs rs
AreVisits contract_id _ _ = ⊥

-- The visits that the loop reaches: up to the first one past the lead time.
abbrev pub due : Date → ℕ → List Date → List Date
due today lead visits = take_until (λ v. date_ltb (add_days lead today) v) visits

abbrev pub is_used : List String → Date → Bool
is_used existing v = has_text existing (isoformat v)

abbrev pub missing : List String → List Date → List Date
missing existing = filter (λ v. not (is_used existing v))

abbrev pub used : List String → List Date → List Date
used existing = filter (is_used existing)

-- `next_future` after the loop.
pub noted : Date → ℕ → List Date → Option Date → Option Date
noted today lead [] nf = nf
noted today lead (v ∷ vs) nf =
    let nf' = note_future today v nf in
    let rest = noted today lead vs nf' in if date_ltb (add_days lead today) v then nf' else rest

module _ (contract_id : String) (today : Date) (lead : ℕ) (existing : List String) where
  pub record Generated (visits : List Date) (t t' : Tally) (db db' : Db) : Type 0 where
    pub added : List Row
    pub grown : db'.rows work_orders ≡ db.rows work_orders ++ added
    pub made : AreVisits contract_id (missing existing (due today lead visits)) added
    pub created : t'.created ≡ t.created + length added
    pub skipped : t'.skipped ≡ t.skipped + length (used existing (due today lead visits))
    pub future : t'.next_future ≡ noted today lead visits t.next_future
    pub others : (o : Table) → IsOther o → db'.rows o ≡ db.rows o

  abbrev note : Date → Tally → Tally
  note v t = record t { next_future = note_future today v t.next_future }

  Generated-stop :
      (v : Date) (vs : List Date) (t : Tally) (db : Db)
      → date_ltb (add_days lead today) v ≡ true
      → Generated (v ∷ vs) t (note v t) db db
  unfolding noted
  Generated-stop v vs t db stop = record {
    added = [];
    grown = sym (append-nil (db.rows work_orders));
    made = rw stop tt;
    created = omega arith;
    skipped = rw stop (omega arith);
    future = rw stop refl;
    others = λ o h. refl;
  }

  Generated-skip :
      (v : Date) (vs : List Date) (t t' : Tally) (db db' : Db)
      → date_ltb (add_days lead today) v ≡ false
      → is_used existing v ≡ true
      → Generated vs (record (note v t) { skipped = t.skipped + 1 }) t' db db'
      → Generated (v ∷ vs) t t' db db'
  unfolding noted
  Generated-skip v vs t t' db db' go old g = record {
    added = g.added;
    grown = g.grown;
    made = rw (go, old) g.made;
    created = g.created;
    skipped = rw (go, old) (omega (arith, g.skipped));
    future = rw go g.future;
    others = g.others;
  }

  Generated-make :
      (v : Date) (vs : List Date) (t t' : Tally) (db db₁ db' : Db)
      → date_ltb (add_days lead today) v ≡ false
      → is_used existing v ≡ false
      → Made contract_id v db db₁
      → Generated vs (record (note v t) { created = t.created + 1 }) t' db₁ db'
      → Generated (v ∷ vs) t t' db db'
  unfolding noted
  Generated-make v vs t t' db db₁ db' go free m g = record {
    added = m.added ∷ g.added;
    grown =
        g.grown
        ∙ ap (λ rs. rs ++ g.added) m.grown
        ∙ append_assoc (db.rows work_orders) (m.added ∷ []) g.added;
    made = rw (go, free) (m.visits, g.made);
    created = omega (arith, g.created);
    skipped = rw (go, free) g.skipped;
    future = rw go g.future;
    others = λ o h. g.others o h ∙ m.others o h;
  }

  Generated-end : (t : Tally) (db : Db) → Generated [] t t db db
  unfolding noted
  Generated-end t db = record {
    added = [];
    grown = sym (append-nil (db.rows work_orders));
    made = tt;
    created = omega arith;
    skipped = omega arith;
    future = refl;
    others = λ o h. refl;
  }

  module _ (env : Env) (contract : Row) (named : get contract "id" ≡ str contract_id) where
    -- The loop returns, and makes the due visits whose dates are not in use, in order.
    pub generate_visits_lem :
        (visits : List Date) (t : Tally) (db : Db)
        → (t' : Tally) × (db' : Db) × (generate_visits env contract today lead existing visits t db
            ≡ (ok t', db'))
          × Generated visits t t' db db'
    unfolding generate_visits
    generate_visits_lem [] t db = (t, db, refl, Generated-end t db)
    generate_visits_lem (v ∷ vs) t db = elim (Bool-cases (date_ltb (add_days lead today) v)) [
      | inl stop ↦ (note v t, db, rw (stop, generate_visits) refl, Generated-stop v vs t db stop)
      | inr go ↦ elim (Bool-cases (is_used existing v)) [
        | inl old ↦
            let (t', db', run, g) =
              generate_visits_lem vs (record (note v t) { skipped = t.skipped + 1 }) db in
            (t', db', rw (go, old, generate_visits) run, Generated-skip v vs t t' db db' go old g)
        | inr free ↦
            let (db₁, run₁, m) = generate_visit_lem env contract v lead db contract_id named in
            let (t', db', run, g) =
              generate_visits_lem vs (record (note v t) { created = t.created + 1 }) db₁ in
            (
              t',
              db',
              rw (go, free, generate_visits) (rw run₁ run),
              Generated-make v vs t t' db db₁ db' go free m g,
            )
      ]
    ]
