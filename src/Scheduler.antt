-- ===== src/Scheduler.antt =====
-- `class SchedulerService` of src/app/business/services/scheduler_service.py. Its data is in `Data`.
pub mod Recurring
pub mod Data
pub mod Frame
pub mod Generation
pub mod Recompute
use Prim.Native.String.{◌++◌ as str_append}
use python_workflow_service.Prelude.{
  ◌-◌, ℕ, ◌+◌, String, Bool, true, false, not, ◌&&◌, ◌||◌, Option, none, some, List, [], ◌∷◌,
  str_eq, any, if◌then◌else◌, get_or_else,
}
use python_workflow_service.Prelude.Text.{prefix, decimal, lower}
use python_workflow_service.Calendar.{Date, date_ltb, date_leb, date_max, add_days}
use python_workflow_service.Calendar.Iso.{isoformat, fromisoformat}
use python_workflow_service.Value.{
  Value, null, bool, str, on, seq, nil, items_of, or_default, py_str, is_text,
}
use python_workflow_service.Value.Dict.{Row, get}
use python_workflow_service.Timeline.{generate_vendor_token, new_timeline_event}
use python_workflow_service.Store.{
  Db, Env, Result, ok, err, statement, other, sound, aborted, broken, transaction_after, Action,
  pure, fresh, ◌>>=◌, ◌>>◌, skip,
}
use python_workflow_service.Crud.WorkOrders
use python_workflow_service.Crud.Contracts
use python_workflow_service.Events.{Event, record_and_dispatch}
use python_workflow_service.Schedule.{
  iter_visit_dates, lead_days, next_occurrence, parse_d, past_end, recurring_lead_days,
  visit_frequency,
}
use python_workflow_service.Scheduler.Data.{
  has_text, Counts, Tally, note_future, text_of, visit_title, created_event, visit_data,
  instance_data, latest, occurrence_anchor, template_next_date, contract_status, is_terminal,
  date_or_null,
}

module _ (env : Env) where
  -- `_today`.
  unfoldable pub read_today : Action Date
  read_today = fresh (λ n. (env.now n).on_date)

  unfoldable pub try_advisory_lock : Action Bool
  try_advisory_lock db =
      let granted = env.lock_granted db.reads in
      (
        ok granted,
        record db { reads = db.reads + 1; locks = if granted then db.locks + 1 else db.locks },
      )

  unfoldable pub release_advisory_lock : Action (Unit {0})
  release_advisory_lock db = (ok tt, record db { locks = db.locks - 1 })

  -- `_build_work_order`.
  unfoldable pub build_work_order : Row → Date → ℕ → Action Row
  build_work_order contract visit lead = do
    (raw_token, token_hash) ← generate_vendor_token env
    event ← new_timeline_event env (
        ("type", str "created")
        ∷ ("by", str "Scheduler")
        ∷ (
          "note",
          str (
              str_append "Auto-generated from contract (lead "
                (str_append (decimal lead) (str_append "d); token=" raw_token))),
        )
        ∷ [])
    pure (visit_data contract visit token_hash event)

  -- The part of the loop that makes a work order.
  unfoldable pub generate_visit : Row → Date → ℕ → Action (Unit {0})
  generate_visit contract visit lead = do
    data' ← build_work_order contract visit lead
    record' ←
        WorkOrders.create env (text_of contract "tenant_id") (text_of contract "project_id") data'
    record_and_dispatch env
        (created_event record' (text_of contract "tenant_id") (text_of contract "project_id"))

  -- The loop of `_generate_for_contract`.
  unfoldable pub generate_visits : Row → Date → ℕ → List String → List Date → Tally → Action Tally
  generate_visits contract today lead existing [] t = pure t
  generate_visits contract today lead existing (visit ∷ visits) t =
      let t' = record t { next_future = note_future today visit t.next_future } in
      let skipping =
        generate_visits contract today lead existing visits
          (record t' { skipped = t'.skipped + 1 }) in
      let making =
        generate_visit contract visit lead
        >> generate_visits contract today lead existing visits
            (record t' { created = t'.created + 1 }) in
      if date_ltb (add_days lead today) visit
      then pure t'
      else (if has_text existing (isoformat visit) then skipping else making)

  -- `_generate_for_contract`.
  unfoldable pub generate_for_contract : Row → Date → Action Tally
  generate_for_contract contract today = do
    existing ← WorkOrders.existing_contract_schedule_dates (text_of contract "id")
    t ←
        generate_visits contract today (lead_days contract) existing
          (iter_visit_dates contract today)
          (record { created = 0; skipped = 0; next_future = none })
    Contracts.update_next_visit_date env (text_of contract "id") (date_or_null t.next_future)
    pure t

  -- `_cancel_pending`, whose note is not used.
  unfoldable pub cancel_pending : Row → Action ℕ
  cancel_pending contract = WorkOrders.cancel_contract_work_orders env (text_of contract "id")

  -- The last lines of `recompute_contract`; what is cancelled here is not reported.
  unfoldable pub regenerate : Row → Bool → Action Counts
  regenerate contract changed = do
    (if changed then cancel_pending contract >> skip else skip)
    today ← read_today
    t ← generate_for_contract contract today
    pure (record { created = t.created; cancelled = 0; skipped = t.skipped })

  -- `recompute_contract`; counts that the result leaves out are 0 here.
  unfoldable pub recompute_contract : Row → Bool → Bool → Action Counts
  recompute_contract contract terms_changed status_changed =
      let status = contract_status contract in
      let cancel = cancel_pending contract >>= λ cancelled.
      pure (record { created = 0; cancelled = cancelled; skipped = 0 }) in
      if is_text (get contract "record_status") "deleted" || is_terminal status
      then cancel
      else (if not (str_eq status "active")
          then pure (record { created = 0; cancelled = 0; skipped = 0 })
          else regenerate contract (terms_changed || status_changed))

  -- Makes the instance of a template for a date.
  unfoldable pub generate_instance : Row → Date → Action (Unit {0})
  generate_instance template next_date = do
    (raw_token, token_hash) ← generate_vendor_token env
    event ← new_timeline_event env (
        ("type", str "created")
        ∷ ("by", str "Scheduler")
        ∷ ("note", str (str_append "Recurring instance; token=" raw_token))
        ∷ [])
    record' ←
        WorkOrders.create env (text_of template "tenant_id") (text_of template "project_id")
          (instance_data template next_date token_hash event)
    record_and_dispatch env
        (created_event record' (text_of template "tenant_id") (text_of template "project_id"))

  -- One template of `generate_recurring_work_orders`. `next_date - timedelta(days=5) <= today` is
  -- read as `next_date <= today + 5`.
  unfoldable pub generate_for_template : Row → Date → Counts → Action Counts
  generate_for_template template today counts = do
    existing ← WorkOrders.recurring_child_dates (text_of template "id")
    let next_date = template_next_date template existing today
    let ended = past_end (parse_d (get template "recurring_end_date")) next_date
    counts' ←
        (if ended || has_text existing (isoformat next_date)
          then pure (record counts { skipped = counts.skipped + 1 })
          else (if date_leb next_date (add_days recurring_lead_days today)
              then generate_instance template next_date
                >> pure (record counts { created = counts.created + 1 })
              else pure counts))
    WorkOrders.update_recurring_next_date env (text_of template "id")
        (if ended then null else on next_date)
    pure counts'

  -- `try: … except Exception: continue`: the counts are kept.
  abbrev pub or_continue : Action Counts → Counts → Action Counts
  or_continue m counts db = kept (m db)
    where
      kept : Result Counts × Db → Result Counts × Db
      kept (ok c, db') = (ok c, db')
      kept (err e, db') = (ok counts, db')

  unfoldable pub generate_for_templates : List Row → Date → Counts → Action Counts
  generate_for_templates [] today counts = pure counts
  generate_for_templates (template ∷ templates) today counts = do
    counts' ← or_continue (generate_for_template template today counts) counts
    generate_for_templates templates today counts'

  unfoldable pub generate_recurring_work_orders : Option String → Action Counts
  generate_recurring_work_orders tenant_id = do
    today ← read_today
    templates ← WorkOrders.list_recurring_templates tenant_id
    generate_for_templates templates today (record { created = 0; cancelled = 0; skipped = 0 })

  -- One contract of `generate_due_work_orders`.
  unfoldable pub generate_due_contract : Row → Date → Counts → Action Counts
  generate_due_contract contract today counts =
      let status = contract_status contract in
      let cancel = cancel_pending contract >>= λ cancelled.
      pure (record counts { cancelled = counts.cancelled + cancelled }) in
      let generate = generate_for_contract contract today >>= λ t. pure (record counts {
        created = counts.created + t.created;
        skipped = counts.skipped + t.skipped;
      }) in
      if is_terminal status
      then cancel
      else (if str_eq status "active" then generate else pure counts)

  unfoldable pub generate_due_contracts : List Row → Date → Counts → Action Counts
  generate_due_contracts [] today counts = pure counts
  generate_due_contracts (contract ∷ contracts) today counts = do
    counts' ← generate_due_contract contract today counts
    generate_due_contracts contracts today counts'

  unfoldable pub generate_due_work_orders : Option String → Action Counts
  generate_due_work_orders tenant_id = do
    today ← read_today
    contracts ← Contracts.list_active_for_scheduler tenant_id
    counts ←
        generate_due_contracts contracts today (record { created = 0; cancelled = 0; skipped = 0 })
    recurring ← generate_recurring_work_orders tenant_id
    pure (record counts {
      created = counts.created + recurring.created;
      skipped = counts.skipped + recurring.skipped;
    })

  -- `try: … finally: release`. In a transaction that a refused statement or a failed flush has ended,
  -- the release raises an exception of its own and the session keeps the lock.
  abbrev pub and_release : Action Counts → Action (Option Counts)
  and_release m db = released (m db)
    where
      released : Result Counts × Db → Result (Option Counts) × Db
      released (ok c, db') = (ok (some c), (release_advisory_lock db').1)
      released (err e, db') = elim (transaction_after e) [
        | sound ↦ (err e, (release_advisory_lock db').1)
        | aborted ↦ (err (statement "current transaction is aborted"), db')
        | broken ↦ (err (other "PendingRollbackError"), db')
      ]

  -- `run_once`; `none` is the answer that another session holds the lock.
  unfoldable pub run_once : Option String → Action (Option Counts)
  run_once tenant_id = do
    granted ← try_advisory_lock
    if granted then and_release (generate_due_work_orders tenant_id) else pure none
