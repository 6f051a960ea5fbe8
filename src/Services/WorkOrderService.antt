-- ===== src/Services/WorkOrderService.antt =====
-- `class WorkOrderService` of src/app/business/services/work_order_service.py.
pub mod VendorAccess
use Prim.Native.String.{◌++◌ as str_append}
use python_workflow_service.Prelude.{
  ℕ, String, Bool, false, not, ◌&&◌, ◌||◌, Option, none, some, List, [], ◌∷◌, ◌++◌, any, ltb,
  if◌then◌else◌,
}
use python_workflow_service.Prelude.Text.{text_length, is_empty}
use python_workflow_service.Value.{
  Value, bool, str, seq, obj, nil, end, items_of, truthy, is_text, is_none, py_str,
}
use python_workflow_service.Value.Dict.{Row, get, has_key, insert, erase, set_default, fields_of}
use python_workflow_service.Store.{
  Env, Action, work_orders, contracts, assets, form_templates, validation, pure, raise, skip,
  or_raise, ◌>>=◌, ◌>>◌,
}
use python_workflow_service.Crud.WorkOrders
use python_workflow_service.Timeline.{generate_vendor_token, hash_vendor_token}
use python_workflow_service.Events.{diff_records, record_and_dispatch}
use python_workflow_service.Services.{
  Scope, missing_record, get_record, ensure_each, ensure_if_given, listed_ids, enum_value, stripped,
  prepare_update_payload, service_event,
}

unfoldable pub prepare_create : Row → Row
unfolding insert set_default enum_value
prepare_create data' =
    let titled = insert "title" (stripped (get data' "title")) data' in
    let listed = set_default "line_items" (seq nil) (set_default "asset_ids" (seq nil) titled) in
    let forms =
      set_default "pre_start_form_values" (obj end) (set_default "form_values" (obj end) listed) in
    let recurring = set_default "recurring_days" (seq nil) forms in
    let stated = insert "state" (enum_value (get recurring "state") "upcoming") recurring in
    let ranked = insert "priority" (enum_value (get stated "priority") "medium") stated in
    let sourced = insert "source" (enum_value (get ranked "source") "ad_hoc") ranked in
    if is_none (get sourced "recurring_frequency")
    then sourced
    else insert "recurring_frequency" (enum_value (get sourced "recurring_frequency") "") sourced

abbrev pub nullable_fields : List String
nullable_fields =
    "description" ∷ "scheduled_date" ∷ "started_at" ∷ "completed_at" ∷ "recurring_end_date" ∷ []

unfoldable pub prepare_update : Row → Row
unfolding prepare_update_payload
prepare_update = prepare_update_payload nullable_fields "title"

unfoldable pub validate_references : Scope → Row → Action (Unit {0})
unfolding ensure_each ensure_if_given get
validate_references s data' = do
  ensure_each assets s (listed_ids (get data' "asset_ids"))
  ensure_if_given contracts s (get data' "contract_id")
  ensure_if_given form_templates s (get data' "form_template_id")
  ensure_if_given form_templates s (get data' "pre_start_form_template_id")

abbrev recurring_fields : List String
recurring_fields =
    "is_recurring" ∷ "recurring_frequency" ∷ "recurring_days" ∷ "scheduled_date"
    ∷ "recurring_end_date" ∷ []

abbrev is_false : Value → Bool
is_false (bool b) = not b
is_false _ = false

-- The note with which `update` cancels the children of a template, if it does.
unfoldable pub cancel_note : Row → Row → Row → Option String
unfolding get has_key
cancel_note before changed record' =
    let was_template = truthy (get before "is_recurring") in
    let recurring_changed = was_template && any (has_key changed) recurring_fields in
    if was_template && recurring_changed && truthy (get record' "is_recurring")
    then some "Recurring schedule changed"
    else (if was_template && is_false (get changed "is_recurring")
        then some "Recurring schedule disabled"
        else (if was_template && is_text (get changed "state") "terminated"
            then some "Cancelled — template terminated"
            else none))

-- An argument of `append_timeline` that is left out when it is `None`.
abbrev argument : String → Option String → Row
argument key none = []
argument key (some text) = (key, str text) ∷ []

-- The arguments of `append_timeline`.
pub record Entry : Type 0 where
  pub event_type : String
  pub note : Option String
  pub by_whom : Option String
  pub from_state : Option String
  pub to_state : Option String

unfoldable pub entry_data : Entry → Row
entry_data e =
    ("type", str e.event_type) ∷ argument "note" e.note
    ++ argument "by" e.by_whom
    ++ argument "from" e.from_state
    ++ argument "to" e.to_state

module _ (env : Env) where
  -- The vendor token that `create` issues when the data has none.
  unfoldable pub with_token : Row → Action Row
  with_token payload = do
    (raw, token_hash) ← generate_vendor_token env
    let note = str (str_append "Vendor token issued: " raw)
    let event = obj (fields_of (("type", str "created") ∷ ("note", note) ∷ []))
    pure (
        insert "timeline" (seq (items_of (event ∷ [])))
          (insert "vendor_token_hash" (str token_hash) payload))

  unfoldable pub cancel_children : String → Option String → Action (Unit {0})
  cancel_children template_id none = skip
  cancel_children template_id (some note) =
      WorkOrders.cancel_recurring_children env template_id note >> skip

  unfoldable pub get_by_vendor_token : String → Action Row
  get_by_vendor_token vendor_token =
      if is_empty vendor_token || ltb (text_length vendor_token) 16
      then raise (validation "auth.errors.unauthorized")
      else WorkOrders.get_by_vendor_token_hash (hash_vendor_token env vendor_token) >>= λ found.
          or_raise found (validation "auth.errors.unauthorized")

  -- The part of `vendor_update` once there is something to write.
  unfoldable pub vendor_write : Row → Row → Action Row
  vendor_write work_order payload = do
    let s : Scope = record {
      tenant_id = py_str (get work_order "tenant_id");
      project_id = py_str (get work_order "project_id");
    }
    updated ← WorkOrders.update env s.tenant_id s.project_id (py_str (get work_order "id")) payload
    record' ← or_raise updated missing_record
    record_and_dispatch env (
        service_event "work_order" "updated" record' (diff_records work_order record') s
          "vendor_portal")
    pure record'

  -- `if not payload: return work_order`.
  unfoldable pub vendor_apply : Row → Row → Action Row
  vendor_apply work_order [] = pure work_order
  vendor_apply work_order (entry ∷ entries) = vendor_write work_order (entry ∷ entries)

  unfoldable pub vendor_update : Row → Row → Action Row
  vendor_update work_order data' = vendor_apply work_order (prepare_update (erase "timeline" data'))

-- `list`; a state that is not given is "".
unfoldable pub page_of : Scope → ℕ → ℕ → String → Action (List Row × ℕ)
page_of s page page_size state = WorkOrders.list s.tenant_id s.project_id page page_size state

module _ (env : Env) (s : Scope) where
  unfoldable pub create : Row → Action Row
  create data' = do
    validate_references s data'
    let payload = prepare_create data'
    payload' ←
        (if truthy (get payload "vendor_token_hash") then pure payload else with_token env payload)
    record' ← WorkOrders.create env s.tenant_id s.project_id payload'
    record_and_dispatch env (service_event "work_order" "created" record' [] s "fm")
    pure record'

  -- The part of `update` once there is something to write.
  unfoldable pub write : String → Row → Row → Row → Action Row
  write entity_id before changed payload = do
    updated ← WorkOrders.update env s.tenant_id s.project_id entity_id payload
    record' ← or_raise updated missing_record
    cancel_children env entity_id (cancel_note before changed record')
    record_and_dispatch env
        (service_event "work_order" "updated" record' (diff_records before record') s "fm")
    pure record'

  unfoldable pub update : String → Row → Action Row
  update entity_id data' = do
    before ← get_record work_orders s entity_id
    let changed = erase "timeline" data'
    validate_references s changed
    elim (prepare_update changed) [
      | [] ↦ pure before
      | entry ∷ entries ↦ write entity_id before changed (entry ∷ entries)
    ]

  unfoldable pub delete : String → Action String
  delete entity_id = do
    before ← get_record work_orders s entity_id
    cancel_children env entity_id
        (if truthy (get before "is_recurring") then some "Cancelled — template deleted" else none)
    deleted ← WorkOrders.soft_delete env s.tenant_id s.project_id entity_id
    (if deleted
        then record_and_dispatch env (service_event "work_order" "deleted" before [] s "fm")
          >> pure entity_id
        else raise missing_record)

  unfoldable pub append_timeline : String → Entry → Action Value
  append_timeline entity_id e = do
    appended ← WorkOrders.append_timeline env s.tenant_id s.project_id entity_id (entry_data e)
    timeline ← or_raise appended missing_record
    record' ← get_record work_orders s entity_id
    record_and_dispatch env (service_event "work_order" "updated" record' [] s "fm")
    pure timeline
