-- ===== src/Events/Laws.antt =====
-- What `record_and_dispatch` leaves behind: the audit trail and the outbox.
use mathlib.Core.List.{append_assoc, append-nil}
use python_workflow_service.Prelude.{
  String, ◌≡◌, refl, sym, ap, ◌∙◌, false, List, [], ◌∷◌, ◌++◌, map, filter, All, pos, Bool-cases,
  inl, inr, ◌||◌,
}
use python_workflow_service.Prelude.Text.{is_empty}
use python_workflow_service.Value.{Value, null, bool, num, str}
use python_workflow_service.Value.Dict.{Row, get}
use python_workflow_service.Store.{
  Table, Db, Env, Result, ok, err, audit_events, webhook_deliveries, triggers, same_table,
}
use python_workflow_service.Crud.Triggers
use python_workflow_service.Crud.WebhookDeliveries
use python_workflow_service.Crud.AuditEvents
use python_workflow_service.Events.{
  Event, event_for, enqueue, dispatch, record_in_scope, record_and_dispatch, scope_text,
  delivery_data, audit_data, event_payload,
}

-- A delivery that the worker has not taken up: not delivered, with `attempt` at its default.
abbrev pub IsQueued : Row → Type 0
IsQueued r = (get r "delivered" ≡ bool false) × (get r "attempt" ≡ num (pos 1))

-- The deliveries that a call adds, one for each trigger id.
pub record Queued (db db' : Db) (ids : List Value) : Type 0 where
  pub added : List Row
  pub appended : db'.rows webhook_deliveries ≡ db.rows webhook_deliveries ++ added
  pub for_triggers : map (λ r. get r "trigger_id") added ≡ ids
  pub queued : All IsQueued added
  pub others : (t : Table) → same_table webhook_deliveries t ≡ false → db'.rows t ≡ db.rows t

abbrev pub trigger_ids : List Row → List Value
trigger_ids = map (λ t. get t "id")

Queued-none : (db : Db) → Queued db db []
Queued-none db = record {
  added = [];
  appended = sym (append-nil (db.rows webhook_deliveries));
  for_triggers = refl;
  queued = tt;
  others = λ t h. refl;
}

-- After one row more the rest of the loop adds its own.
Queued-cons :
    (db db₁ db' : Db) (r : Row) (ids : List Value)
    → db₁.rows webhook_deliveries ≡ db.rows webhook_deliveries ++ r ∷ []
    → ((t : Table) → same_table webhook_deliveries t ≡ false → db₁.rows t ≡ db.rows t)
    → IsQueued r
    → Queued db₁ db' ids
    → Queued db db' (get r "trigger_id" ∷ ids)
Queued-cons db db₁ db' r ids e keep fresh_row q = record {
  added = r ∷ q.added;
  appended =
      q.appended
      ∙ ap (λ rs. rs ++ q.added) e
      ∙ append_assoc (db.rows webhook_deliveries) (r ∷ []) q.added;
  for_triggers = ap (λ l. get r "trigger_id" ∷ l) q.for_triggers;
  queued = (fresh_row, q.queued);
  others = λ t h. q.others t h ∙ keep t h;
}

abbrev payload_of : Result Value → Value
payload_of (ok v) = v
payload_of (err _) = null

module _ (env : Env) (e : Event) (org_id proj_id event : String) where
  pub enqueue_lem :
      (payload : Value) (ts : List Row) (db : Db)
      → (db' : Db) × (enqueue env e org_id proj_id event payload ts db ≡ (ok tt, db'))
        × Queued db db' (trigger_ids ts)
  unfolding enqueue get WebhookDeliveries.create
  enqueue_lem payload [] db = (db, refl, Queued-none db)
  enqueue_lem payload (t ∷ ts) db =
      let created =
        WebhookDeliveries.create env (delivery_data e org_id proj_id event payload t) db in
      let (db', run, q) = enqueue_lem payload ts created.1 in
      (db', run, Queued-cons db created.1 db' _ (trigger_ids ts) refl (λ u h. rw h) (refl, refl) q)

  dispatch_lem :
      (ts : List Row) (db : Db)
      → (db' : Db) × (dispatch env e org_id proj_id event ts db ≡ (ok tt, db'))
        × Queued db db' (trigger_ids ts)
  unfolding dispatch event_payload
  dispatch_lem [] db = (db, refl, Queued-none db)
  dispatch_lem (t ∷ ts) db =
      let started = event_payload env e db in
      let (db', run, q) = enqueue_lem (payload_of started.0) (t ∷ ts) started.1 in
      (
        db',
        run,
        record {
          added = q.added;
          appended = q.appended;
          for_triggers = q.for_triggers;
          queued = q.queued;
          others = q.others;
        },
      )

-- What one recorded event adds: one audit row, and a delivery for each matching trigger.
pub record Recorded (e : Event) (org_id proj_id : String) (db db' : Db) : Type 0 where
  pub audit : Row
  pub audited : db'.rows audit_events ≡ db.rows audit_events ++ audit ∷ []
  pub about : get audit "entity_id" ≡ get e.subject "id"
  pub acted : get audit "action" ≡ str e.action
  pub by_tenant : get audit "tenant_id" ≡ str org_id
  pub added : List Row
  pub appended : db'.rows webhook_deliveries ≡ db.rows webhook_deliveries ++ added
  pub for_triggers :
      map (λ r. get r "trigger_id") added
      ≡ trigger_ids (
          filter
            (Triggers.matches org_id proj_id e.entity (event_for e.action e.changes))
            (db.rows triggers))
  pub queued : All IsQueued added
  pub others :
      (t : Table)
      → same_table audit_events t ≡ false
      → same_table webhook_deliveries t ≡ false
      → db'.rows t ≡ db.rows t

record_in_scope_lem :
    (env : Env) (e : Event) (org_id proj_id : String) (db : Db)
    → (db' : Db) × (record_in_scope env e org_id proj_id db ≡ (ok tt, db'))
      × Recorded e org_id proj_id db db'
unfolding record_in_scope get AuditEvents.create
record_in_scope_lem env e org_id proj_id db =
    let created = AuditEvents.create env (audit_data e org_id proj_id) db in
    let event = event_for e.action e.changes in
    let matching = filter (Triggers.matches org_id proj_id e.entity event) (db.rows triggers) in
    let (db', run, q) = dispatch_lem env e org_id proj_id event matching created.1 in
    (
      db',
      run,
      record {
        audit = _;
        audited = q.others audit_events refl;
        about = refl;
        acted = refl;
        by_tenant = refl;
        added = q.added;
        appended = q.appended;
        for_triggers = q.for_triggers;
        queued = q.queued;
        others = λ t h k. q.others t k ∙ rw h;
      },
    )

-- With a tenant and a project an event is recorded: the call returns, appends one audit row that
-- names the entity and the action, queues one undelivered delivery for each active trigger of the
-- tenant and project that matches the entity and the event, in their order, and leaves every other
-- table as it was.
pub record_and_dispatch-Recorded :
    (env : Env) (e : Event) (db : Db)
    → is_empty (scope_text e.tenant_id (get e.subject "tenant_id")) ≡ false
    → is_empty (scope_text e.project_id (get e.subject "project_id")) ≡ false
    → (db' : Db) × (record_and_dispatch env e db ≡ (ok tt, db'))
      × Recorded e
          (scope_text e.tenant_id (get e.subject "tenant_id"))
          (scope_text e.project_id (get e.subject "project_id"))
          db
          db'
unfolding record_and_dispatch
record_and_dispatch-Recorded env e db h k =
    let org_id = scope_text e.tenant_id (get e.subject "tenant_id") in
    let proj_id = scope_text e.project_id (get e.subject "project_id") in
    let (db', run, r) = record_in_scope_lem env e org_id proj_id db in (db', rw (h, k) run, r)

-- The call returns for the row of a table, which has an id, and only the audit trail and the outbox can
-- change.
pub record_and_dispatch_frame :
    (env : Env) (e : Event) (db : Db)
    → (db' : Db) × (record_and_dispatch env e db ≡ (ok tt, db'))
      × ((t : Table)
          → same_table audit_events t ≡ false
          → same_table webhook_deliveries t ≡ false
          → db'.rows t ≡ db.rows t)
unfolding record_and_dispatch
record_and_dispatch_frame env e db =
    let org_id = scope_text e.tenant_id (get e.subject "tenant_id") in
    let proj_id = scope_text e.project_id (get e.subject "project_id") in
    elim (Bool-cases (is_empty org_id || is_empty proj_id)) [
      | inl missing ↦ (db, rw missing, λ t h k. refl)
      | inr known ↦
          let (db', run, r) = record_in_scope_lem env e org_id proj_id db in
          (db', rw known run, r.others)
    ]
