-- ===== src/Scheduler/Frame.antt =====
-- One work order made by the scheduler: the row that is added, and what stays as it was.
use text.Mathlib.TextPositions.{eq_refl}
use python_workflow_service.Prelude.{ℕ, String, ◌≡◌, refl, ◌∙◌, true, false, [], ◌∷◌, ◌++◌}
use python_workflow_service.Calendar.{Date}
use python_workflow_service.Value.{Value, str, on, is_text}
use python_workflow_service.Value.Dict.{Row, get}
use python_workflow_service.Timeline.{generate_vendor_token, new_timeline_event}
use python_workflow_service.Store.{
  Table, Db, Env, Result, ok, err, work_orders, audit_events, webhook_deliveries, same_table,
}
use python_workflow_service.Crud.WorkOrders
use python_workflow_service.Crud.WorkOrders.{uses_schedule}
use python_workflow_service.Events.Laws.{record_and_dispatch_frame}
use python_workflow_service.Scheduler.{generate_visit, build_work_order}
use python_workflow_service.Scheduler.Data.{created_event, visit_data, text_of}

-- An upcoming work order of a contract for a visit.
pub record IsVisit (contract_id : String) (visit : Date) (r : Row) : Type 0 where
  pub used : uses_schedule contract_id r ≡ true
  pub upcoming : get r "state" ≡ str "upcoming"
  pub scheduled : get r "scheduled_date" ≡ on visit

-- The tables that making a work order leaves alone.
abbrev pub IsOther : Table → Type 0
IsOther t =
    (same_table work_orders t ≡ false)
    × (same_table audit_events t ≡ false)
    × (same_table webhook_deliveries t ≡ false)

pub record Made (contract_id : String) (visit : Date) (db db' : Db) : Type 0 where
  pub added : Row
  pub grown : db'.rows work_orders ≡ db.rows work_orders ++ added ∷ []
  pub visits : IsVisit contract_id visit added
  pub others : (t : Table) → IsOther t → db'.rows t ≡ db.rows t

abbrev row_of : Result Row → Row
row_of (ok r) = r
row_of (err _) = []

contract_id-text :
    (v : Value) (contract_id : String) → v ≡ str contract_id → is_text v contract_id ≡ true
contract_id-text v contract_id e = rw e (eq_refl contract_id)

-- Making the work order of a visit returns, appends one upcoming work order of the contract for
-- that visit, and leaves all tables but the audit trail and the outbox as they were.
pub generate_visit_lem :
    (env : Env) (contract : Row) (visit : Date) (lead : ℕ) (db : Db) (contract_id : String)
    → get contract "id" ≡ str contract_id
    → (db' : Db) × (generate_visit env contract visit lead db ≡ (ok tt, db'))
      × Made contract_id visit db db'
unfolding generate_visit build_work_order get generate_vendor_token new_timeline_event
    WorkOrders.create visit_data uses_schedule
generate_visit_lem env contract visit lead db contract_id e =
    let tenant_id = text_of contract "tenant_id" in
    let project_id = text_of contract "project_id" in
    let built = build_work_order env contract visit lead db in
    let created = WorkOrders.create env tenant_id project_id (row_of built.0) built.1 in
    let (db', run, keep) =
      record_and_dispatch_frame env (created_event (row_of created.0) tenant_id project_id)
        created.1 in
    (
      db',
      run,
      record {
        added = row_of created.0;
        grown = keep work_orders refl refl;
        visits = record {
          used = rw (contract_id-text (get contract "id") contract_id e) refl;
          upcoming = refl;
          scheduled = refl;
        };
        others = λ t h. keep t h.1 h.2 ∙ rw h.0;
      },
    )
