-- ===== src/Services/InvoiceService.antt =====
-- `class InvoiceService` of src/app/business/services/invoice_service.py.
use python_workflow_service.Prelude.{
  ℕ, String, not, ◌&&◌, Option, none, some, List, [], ◌∷◌, lookup, if◌then◌else◌,
}
use python_workflow_service.Value.{
  Value, null, str, seq, obj, nil, end, items_of, truthy, or_default, py_str, is_text, value_eq,
}
use python_workflow_service.Value.Dict.{Row, get, insert, erase, set_default}
use python_workflow_service.Store.{
  Env, Action, invoices, work_orders, pure, raise, or_raise, ◌>>=◌, ◌>>◌,
}
use python_workflow_service.Crud.Invoices
use python_workflow_service.Timeline.{new_timeline_event}
use python_workflow_service.Events.{diff_records, record_and_dispatch}
use python_workflow_service.Services.{
  Scope, missing_record, get_record, ensure_exists, enum_value, stripped, prepare_update_payload,
  service_event,
}

-- `_INVOICE_STATUS_TIMELINE_EVENTS`.
abbrev status_events : List (String × String)
status_events =
    ("revision_requested", "revision_requested")
    ∷ ("approved", "approved")
    ∷ ("rejected", "rejected")
    ∷ ("paid", "paid")
    ∷ []

-- The type of the timeline entry that a new status gets, if it gets one.
unfoldable pub event_type : Value → Option String
unfolding py_str
event_type status = elim (lookup (py_str status) status_events) [
  | some type ↦ some type
  | none ↦ (if is_text status "submitted" then some "resubmitted" else none)
]

unfoldable pub prepare_update : Row → Row
unfolding prepare_update_payload
prepare_update = prepare_update_payload ("date" ∷ []) "invoice_number"

-- The type of the entry that `update` appends for a change of status, if it appends one.
unfoldable pub change_event : Row → Row → Option String
unfolding get value_eq event_type
change_event before record' =
    let old_status = get before "status" in
    let new_status = get record' "status" in
    if truthy old_status && not (value_eq new_status old_status)
    then event_type new_status
    else none

module _ (env : Env) where
  unfoldable pub prepare_create : Row → Action Row
  prepare_create data' = do
    let numbered = insert "invoice_number" (stripped (get data' "invoice_number")) data'
    let listed = set_default "document" (obj end) (set_default "line_items" (seq nil) numbered)
    let filed = set_default "revisions" (seq nil) (set_default "files" (seq nil) listed)
    let priced = insert "currency" (or_default (get filed "currency") (str "INR")) filed
    let payload = insert "status" (enum_value (get priced "status") "submitted") priced
    (if truthy (get payload "timeline")
        then pure payload
        else new_timeline_event env (("type", str "submitted") ∷ []) >>= λ event.
            pure (insert "timeline" (seq (items_of (event ∷ []))) payload))

-- `list`; an argument that is not given is "".
unfoldable pub page_of : Scope → ℕ → ℕ → String → String → Action (List Row × ℕ)
page_of s page page_size work_order_id status =
    Invoices.list s.tenant_id s.project_id page page_size work_order_id status

module _ (env : Env) (s : Scope) where
  unfoldable pub create : String → Row → Action Row
  create source data' = do
    ensure_exists work_orders s (py_str (get data' "work_order_id"))
    payload ← prepare_create env data'
    record' ← Invoices.create env s.tenant_id s.project_id payload
    record_and_dispatch env (service_event "invoice" "created" record' [] s source)
    pure record'

  unfoldable pub append_timeline : String → String → Value → Value → Action Value
  append_timeline entity_id type note by_whom = do
    appended ←
        Invoices.append_timeline env s.tenant_id s.project_id entity_id
          (("type", str type) ∷ ("note", note) ∷ ("by", by_whom) ∷ [])
    or_raise appended missing_record

  -- The entry for a change of status, and the record with it.
  unfoldable pub note_status : String → Value → Option String → Row → Action Row
  note_status entity_id note none record' = pure record'
  note_status entity_id note (some type) record' = do
    append_timeline entity_id type (if truthy note then note else null) null
    get_record invoices s entity_id

  -- The part of `update` once there is something to write.
  unfoldable pub write : String → Row → Value → Row → Action Row
  write entity_id before note payload = do
    updated ← Invoices.update env s.tenant_id s.project_id entity_id payload
    record' ← or_raise updated missing_record
    noted ← note_status entity_id note (change_event before record') record'
    record_and_dispatch env
        (service_event "invoice" "updated" noted (diff_records before noted) s "fm")
    pure noted

  unfoldable pub update : String → Row → Action Row
  update entity_id data' = do
    before ← get_record invoices s entity_id
    elim (prepare_update (erase "timeline" (erase "note" data'))) [
      | [] ↦ pure before
      | entry ∷ entries ↦ write entity_id before (get data' "note") (entry ∷ entries)
    ]

  unfoldable pub delete : String → Action String
  delete entity_id = do
    before ← get_record invoices s entity_id
    deleted ← Invoices.soft_delete env s.tenant_id s.project_id entity_id
    (if deleted
        then record_and_dispatch env (service_event "invoice" "deleted" before [] s "fm")
          >> pure entity_id
        else raise missing_record)
