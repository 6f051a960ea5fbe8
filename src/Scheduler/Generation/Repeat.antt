-- ===== src/Scheduler/Generation/Repeat.antt =====
-- `_generate_for_contract` as a whole, and its second run.
use mathlib.Core.List.{append-nil}
use python_workflow_service.Prelude.{
  ◌+◌, String, ◌≡◌, refl, sym, ap, ◌∙◌, true, false, none, List, [], ◌∷◌, ◌++◌, map, length, All,
  arith,
}
use python_workflow_service.Calendar.{Date}
use python_workflow_service.Calendar.Iso.{isoformat}
use python_workflow_service.Value.{str, py_str}
use python_workflow_service.Value.Dict.{Row, get}
use python_workflow_service.Store.{Table, Db, Env, ok, work_orders, contracts, same_table}
use python_workflow_service.Crud.WorkOrders
use python_workflow_service.Crud.WorkOrders.{uses_schedule, schedule_dates}
use python_workflow_service.Crud.Contracts
use python_workflow_service.Schedule.{iter_visit_dates, lead_days}
use python_workflow_service.Scheduler.{generate_for_contract}
use python_workflow_service.Scheduler.Data.{Tally, has_text, text_of, date_or_null}
use python_workflow_service.Scheduler.Frame.{IsOther}
use python_workflow_service.Scheduler.Generation.{
  AreVisits, due, is_used, missing, used, noted, generate_visits_lem,
}
use python_workflow_service.Scheduler.Generation.Dates.{
  or_true, has_text-append, schedule_dates-append, schedule_dates-AreVisits, All-used, missing_none,
  used-All, length-missing-used, length-AreVisits,
}

abbrev start : Tally
start = record { created = 0; skipped = 0; next_future = none }

abbrev schedule : String → Db → List String
schedule contract_id db = schedule_dates (uses_schedule contract_id) (db.rows work_orders)

-- What a run of `_generate_for_contract` for the day `today` leaves behind.
pub record Run (contract_id : String) (contract : Row) (today : Date) (t : Tally) (db db' : Db)
    : Type 0 where
  pub added : List Row
  pub grown : db'.rows work_orders ≡ db.rows work_orders ++ added
  pub made :
      AreVisits contract_id
        (missing
          (schedule contract_id db)
          (due today (lead_days contract) (iter_visit_dates contract today)))
        added
  pub created : t.created ≡ length added
  pub skipped :
      t.skipped
      ≡ length (
          used
            (schedule contract_id db)
            (due today (lead_days contract) (iter_visit_dates contract today)))
  pub future :
      t.next_future ≡ noted today (lead_days contract) (iter_visit_dates contract today) none
  pub others : (o : Table) → IsOther o → same_table contracts o ≡ false → db'.rows o ≡ db.rows o

id-text :
    (contract : Row) (contract_id : String)
    → get contract "id" ≡ str contract_id
    → text_of contract "id" ≡ contract_id
unfolding py_str
id-text contract contract_id e = rw e refl

AreVisits-nil : (contract_id : String) (rs : List Row) → AreVisits contract_id [] rs → rs ≡ []
AreVisits-nil contract_id [] h = refl
AreVisits-nil contract_id (r ∷ rs) h = absurd h

module _ {contract_id : String} {contract : Row} {today : Date} where
  -- After a run every due visit is in use.
  second_schedule :
      (db db₁ : Db) (t : Tally)
      → Run contract_id contract today t db db₁
      → All
          (λ v. is_used (schedule contract_id db₁) v ≡ true)
          (due today (lead_days contract) (iter_visit_dates contract today))
  second_schedule db db₁ t first =
      let visits = due today (lead_days contract) (iter_visit_dates contract today) in
      let existing = schedule contract_id db in
      let p = uses_schedule contract_id in
      let grown : schedule contract_id db₁ ≡ existing ++ map isoformat (missing existing visits) =
        ap (schedule_dates p) first.grown
        ∙ schedule_dates-append p (db.rows work_orders) first.added
        ∙ ap (λ l. existing ++ l) (schedule_dates-AreVisits contract_id _ first.added first.made) in
      rw grown (
        All-used existing (existing ++ map isoformat (missing existing visits)) visits
          (λ s h. has_text-append existing (map isoformat (missing existing visits)) s ∙ rw h refl)
          (λ s h.
            has_text-append existing (map isoformat (missing existing visits)) s
            ∙ rw h (or_true (has_text existing s))))

  counted :
      (db db₁ : Db) (t : Tally)
      → Run contract_id contract today t db db₁
      → length (due today (lead_days contract) (iter_visit_dates contract today))
        ≡ t.created + t.skipped
  counted db db₁ t first =
      let visits = due today (lead_days contract) (iter_visit_dates contract today) in
      let existing = schedule contract_id db in
      omega (
        arith,
        first.created,
        first.skipped,
        length-missing-used existing visits,
        length-AreVisits contract_id (missing existing visits) first.added first.made,
      )

module _ (env : Env) (contract : Row) (today : Date) (contract_id : String)
    (named : get contract "id" ≡ str contract_id) where
  -- A run returns. It appends one upcoming work order of the contract for each visit that is due
  -- (in order, up to the lead time after today) and whose date no live work order of the contract
  -- uses, counts these as created and the other due visits as skipped, and leaves every table but
  -- the contracts, the work orders, the audit trail and the outbox as it was.
  pub generate_for_contract-Run :
      (db : Db)
      → (t : Tally) × (db' : Db) × (generate_for_contract env contract today db ≡ (ok t, db'))
        × Run contract_id contract today t db db'
  unfolding generate_for_contract WorkOrders.existing_contract_schedule_dates
      Contracts.update_next_visit_date
  generate_for_contract-Run db =
      let visits = iter_visit_dates contract today in
      let lead = lead_days contract in
      let (t, db₁, run, g) =
        generate_visits_lem contract_id today lead (schedule contract_id db) env contract named
          visits start db in
      (
        t,
        (Contracts.update_next_visit_date env (text_of contract "id") (date_or_null t.next_future)
            db₁).1,
        rw (id-text contract contract_id named) (rw run refl),
        record {
          added = g.added;
          grown = g.grown;
          made = g.made;
          created = omega (arith, g.created);
          skipped = omega (arith, g.skipped);
          future = g.future;
          others = λ o h k. rw k (g.others o h);
        },
      )

  -- Generation is idempotent: a second run for the same contract and day creates nothing, skips
  -- what the first run created and skipped, finds the same next visit, and leaves the work orders
  -- as they were.
  pub generate_for_contract_idempotent :
      (db : Db)
      → (t : Tally) × (db₁ : Db) × (u : Tally) × (db₂ : Db) × (generate_for_contract env contract
            today db
          ≡ (ok t, db₁))
        × (generate_for_contract env contract today db₁ ≡ (ok u, db₂))
        × (u.created ≡ 0)
        × (u.skipped ≡ t.created + t.skipped)
        × (u.next_future ≡ t.next_future)
        × (db₂.rows work_orders ≡ db₁.rows work_orders)
  generate_for_contract_idempotent db =
      let (t, db₁, run₁, first) = generate_for_contract-Run db in
      let (u, db₂, run₂, second) = generate_for_contract-Run db₁ in
      let visits = due today (lead_days contract) (iter_visit_dates contract today) in
      let full = second_schedule db db₁ t first in
      let none_missing = missing_none (schedule contract_id db₁) visits full in
      let nothing = AreVisits-nil contract_id second.added (rw none_missing at second.made) in
      (
        t,
        db₁,
        u,
        db₂,
        run₁,
        run₂,
        second.created ∙ ap length nothing,
        second.skipped
            ∙ ap length (used-All (schedule contract_id db₁) visits full)
            ∙ counted db db₁ t first,
        second.future ∙ sym first.future,
        second.grown
            ∙ ap (λ rs. db₁.rows work_orders ++ rs) nothing
            ∙ append-nil (db₁.rows work_orders),
      )
