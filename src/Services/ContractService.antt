-- ===== src/Services/ContractService.antt =====
-- `class ContractService` of src/app/business/services/contract_service.py.
pub mod Deletion
use python_workflow_service.Prelude.{
  ℕ, List, String, Bool, true, false, not, [], ◌∷◌, any, if◌then◌else◌,
}
use python_workflow_service.Value.{str, seq, nil, or_default, value_eq}
use python_workflow_service.Value.Dict.{Row, get, insert, set_default}
use python_workflow_service.Store.{
  Env, Action, contracts, assets, form_templates, pure, raise, or_raise, ◌>>=◌, ◌>>◌,
}
use python_workflow_service.Crud.Contracts
use python_workflow_service.Events.{diff_records, record_and_dispatch}
use python_workflow_service.Scheduler.{recompute_contract}
use python_workflow_service.Services.{
  Scope, missing_record, get_record, ensure_each, ensure_if_given, listed_ids, enum_value, stripped,
  prepare_update_payload, service_event,
}

unfoldable pub prepare_create : Row → Row
unfolding insert set_default enum_value
prepare_create data' =
    let titled = insert "title" (stripped (get data' "title")) data' in
    let listed = set_default "documents" (seq nil) (set_default "asset_ids" (seq nil) titled) in
    let visits =
      insert "visit_frequency" (enum_value (get listed "visit_frequency") "quarterly") listed in
    let paid =
      insert "payment_frequency" (enum_value (get visits "payment_frequency") "quarterly") visits in
    let priced = insert "currency" (or_default (get paid "currency") (str "INR")) paid in
    insert "status" (enum_value (get priced "status") "active") priced

unfoldable pub prepare_update : Row → Row
unfolding prepare_update_payload
prepare_update =
    prepare_update_payload ("end_date" ∷ "next_visit_date" ∷ "last_serviced_date" ∷ []) "title"

unfoldable pub validate_references : Scope → Row → Action (Unit {0})
unfolding ensure_each ensure_if_given get
validate_references s data' = do
  ensure_each assets s (listed_ids (get data' "asset_ids"))
  ensure_if_given form_templates s (get data' "form_template_id")
  ensure_if_given form_templates s (get data' "pre_start_form_template_id")

abbrev differs : Row → Row → String → Bool
differs before after key = not (value_eq (get before key) (get after key))

-- `terms_changed` of `update`.
unfoldable pub terms_changed : Row → Row → Bool
unfolding get value_eq
terms_changed before after = any (differs before after) (
    "start_date" ∷ "end_date" ∷ "visit_frequency" ∷ "last_serviced_date" ∷ "auto_generate_lead_days"
    ∷ "asset_ids" ∷ [])

-- `list`; a status that is not given is "".
unfoldable pub page_of : Scope → ℕ → ℕ → String → Action (List Row × ℕ)
page_of s page page_size status = Contracts.list s.tenant_id s.project_id page page_size status

module _ (env : Env) (s : Scope) where
  unfoldable pub create : Row → Action Row
  create data' = do
    validate_references s data'
    record' ← Contracts.create env s.tenant_id s.project_id (prepare_create data')
    record_and_dispatch env (service_event "contract" "created" record' [] s "fm")
    recompute_contract env record' false false
    pure record'

  -- The part of `update` once there is something to write.
  unfoldable pub write : String → Row → Row → Action Row
  write entity_id before payload = do
    updated ← Contracts.update env s.tenant_id s.project_id entity_id payload
    record' ← or_raise updated missing_record
    record_and_dispatch env
        (service_event "contract" "updated" record' (diff_records before record') s "fm")
    recompute_contract env record' (terms_changed before record') (differs before record' "status")
    pure record'

  unfoldable pub update : String → Row → Action Row
  update entity_id data' = do
    before ← get_record contracts s entity_id
    validate_references s data'
    elim (prepare_update data') [
      | [] ↦ pure before
      | entry ∷ entries ↦ write entity_id before (entry ∷ entries)
    ]

  unfoldable pub delete : String → Action String
  delete entity_id = do
    before ← get_record contracts s entity_id
    deleted ← Contracts.soft_delete env s.tenant_id s.project_id entity_id
    let before' = insert "record_status" (str "deleted") before
    (if deleted
        then recompute_contract env before' false true
          >> record_and_dispatch env (service_event "contract" "deleted" before' [] s "fm")
          >> pure entity_id
        else raise missing_record)
