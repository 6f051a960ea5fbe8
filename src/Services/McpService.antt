-- ===== src/Services/McpService.antt =====
-- `class McpService` of src/app/business/services/mcp_service.py: the tools that an API key may call. An
-- argument that the input schema calls a text is one.
pub mod ReadOnly
pub mod Definitions
use Prim.Native.String.{◌++◌ as str_append}
use python_workflow_service.Prelude.{
  ℕ, String, Bool, Option, none, some, List, [], ◌∷◌, filter, take, map, lookup, ℤ, pos, negsuc,
  str_eq, if◌then◌else◌,
}
use python_workflow_service.Prelude.Text.{strip, lower, is_empty, int_of_text}
use python_workflow_service.Calendar.Iso.{fromisoformat}
use python_workflow_service.Value.{
  Value, null, bool, num, str, enum, on, seq, obj, nil, items_of, truthy, or_default, py_str,
  is_text,
}
use python_workflow_service.Value.Dict.{Row, get, has_key, fields_of}
use python_workflow_service.Store.{
  Env, Action, work_orders, validation, other, statement, pure, raise, or_raise, ◌>>=◌, ◌>>◌,
}
use python_workflow_service.Services.{Scope, get_record}
use python_workflow_service.Services.ApiKeyService.{ApiKeyScope}
use python_workflow_service.Services.BusinessProfileService
use python_workflow_service.Services.ContractService
use python_workflow_service.Services.InvoiceService
use python_workflow_service.Services.PaymentService
use python_workflow_service.Services.WorkOrderService

pub data Tool : Type 0 where
  list_work_orders get_work_order create_work_order update_work_order_status : Tool
  list_invoices approve_invoice reject_invoice request_invoice_revision : Tool
  list_contracts list_payments get_business_profile : Tool

-- The names of `mcp_tools`.
abbrev pub mcp_tools : List String
mcp_tools =
    "list_work_orders" ∷ "get_work_order" ∷ "create_work_order" ∷ "update_work_order_status"
    ∷ "list_invoices" ∷ "approve_invoice" ∷ "reject_invoice" ∷ "request_invoice_revision"
    ∷ "list_contracts" ∷ "list_payments" ∷ "get_business_profile" ∷ []

-- `_tool_handlers`.
abbrev pub tool_handlers : List (String × Tool)
tool_handlers =
    ("list_work_orders", list_work_orders)
    ∷ ("get_work_order", get_work_order)
    ∷ ("create_work_order", create_work_order)
    ∷ ("update_work_order_status", update_work_order_status)
    ∷ ("list_invoices", list_invoices)
    ∷ ("approve_invoice", approve_invoice)
    ∷ ("reject_invoice", reject_invoice)
    ∷ ("request_invoice_revision", request_invoice_revision)
    ∷ ("list_contracts", list_contracts)
    ∷ ("list_payments", list_payments)
    ∷ ("get_business_profile", get_business_profile)
    ∷ []

-- `_STATE_ALIASES`.
abbrev pub state_aliases : List (String × String)
state_aliases =
    ("upcoming", "upcoming")
    ∷ ("in progress", "in_progress")
    ∷ ("in_progress", "in_progress")
    ∷ ("in review", "in_review")
    ∷ ("in_review", "in_review")
    ∷ ("completed", "completed")
    ∷ ("closed", "completed")
    ∷ ("terminated", "terminated")
    ∷ ("cancelled", "terminated")
    ∷ []

-- `_normalize_state`.
unfoldable pub normalize_state : String → String
normalize_state raw = elim (lookup (lower (strip raw)) state_aliases) [
  | some state ↦ state
  | none ↦ lower (strip raw)
]

-- `args[key]`.
unfoldable pub required : Row → String → Action Value
required args key =
    if has_key args key
    then pure (get args key)
    else raise (other (str_append "'" (str_append key "'")))

-- `int(v)`.
abbrev pub int_of : Value → Option ℤ
int_of (num z) = some z
int_of (bool b) = some (if b then pos 1 else pos 0)
int_of (str s) = int_of_text s
int_of _ = none

-- A limit of a statement, which PostgreSQL refuses where it is negative.
unfoldable pub checked_limit : Option ℤ → Action ℕ
checked_limit none = raise (other "ValueError")
checked_limit (some (pos n)) = pure n
checked_limit (some (negsuc n)) = raise (statement "LIMIT must not be negative")

-- `int(args.get("limit") or 50)`.
unfoldable pub limit_of : Row → Action ℕ
limit_of args = checked_limit (int_of (or_default (get args "limit") (num (pos 50))))

abbrev pub row_value : Row → Value
row_value r = obj (fields_of r)

abbrev pub rows_value : List Row → Value
rows_value rs = seq (items_of (map row_value rs))

-- `{"total": total, "data": items}`.
unfoldable pub listing : List Row × ℕ → Value
listing page = row_value (("total", num (pos page.1)) ∷ ("data", rows_value page.0) ∷ [])

abbrev pub text_or_none : Value → String
text_or_none v = py_str (or_default v (str ""))

-- `[row for row in items if row.get("vendor_id") == vendor_id]`, where a vendor is given.
unfoldable pub of_vendor : Value → List Row → List Row
of_vendor vendor_id rows =
    if truthy vendor_id
    then filter (λ r. is_text (get r "vendor_id") (py_str vendor_id)) rows
    else rows

-- `self._actor`.
unfoldable pub actor_name : ApiKeyScope → String
actor_name scope =
    str_append "API key "
      (py_str (or_default scope.api_key_name (or_default scope.api_key_id (str "unknown"))))

-- `date.fromisoformat(str(scheduled)) if scheduled else None`.
unfoldable pub scheduled_of : Value → Action Value
scheduled_of scheduled =
    if truthy scheduled
    then elim (fromisoformat (py_str scheduled)) [
      | none ↦ raise (other "Invalid isoformat string")
      | some d ↦ pure (on d)
    ]
    else pure null

module _ (env : Env) (s : Scope) where
  unfoldable pub run_list_work_orders : Row → Action Value
  run_list_work_orders args = do
    limit ← limit_of args
    let state =
        if truthy (get args "state") then normalize_state (py_str (get args "state")) else ""
    page ← WorkOrderService.page_of s 1 limit state
    let found = take limit (of_vendor (get args "vendor_id") page.0)
    pure (row_value (("data", rows_value found) ∷ []))

  unfoldable pub run_get_work_order : Row → Action Value
  run_get_work_order args = do
    id ← required args "id"
    row ← get_record work_orders s (py_str id)
    pure (row_value row)

  unfoldable pub run_create_work_order : Row → Action Value
  run_create_work_order args = do
    scheduled_date ← scheduled_of (get args "scheduled_date")
    title ← required args "title"
    vendor_id ← required args "vendor_id"
    row ← WorkOrderService.create env s (
        ("title", title)
        ∷ ("scheduled_date", scheduled_date)
        ∷ ("vendor_id", vendor_id)
        ∷ ("asset_ids", or_default (get args "asset_ids") (seq nil))
        ∷ ("priority", or_default (get args "priority") (str "medium"))
        ∷ ("description", get args "description")
        ∷ ("source", str "ad_hoc")
        ∷ [])
    pure (row_value row)

  -- The record after `_update_work_order_status` has written, with the note where there is one.
  unfoldable pub note_state : ApiKeyScope → String → Value → Row → Action Row
  note_state scope entity_id note record' =
      if truthy note
      then WorkOrderService.append_timeline env s entity_id (record {
        event_type = "status_changed";
        note = some (py_str note);
        by_whom = some (actor_name scope);
        from_state = none;
        to_state = none;
      })
        >> get_record work_orders s entity_id
      else pure record'

  unfoldable pub write_state : ApiKeyScope → String → String → Value → Action Value
  write_state scope entity_id state note =
      if is_empty state
      then raise (validation "errors.validation_failed")
      else WorkOrderService.update env s entity_id (("state", str state) ∷ []) >>= λ record'.
          note_state scope entity_id note record' >>= λ noted.
          pure (row_value (("id", get noted "id") ∷ ("state", get noted "state") ∷ []))

  unfoldable pub run_update_work_order_status : ApiKeyScope → Row → Action Value
  run_update_work_order_status scope args = do
    id ← required args "id"
    state ← required args "state"
    write_state scope (py_str id) (normalize_state (py_str state)) (get args "note")

  unfoldable pub run_list_invoices : Row → Action Value
  run_list_invoices args = do
    limit ← limit_of args
    page ← InvoiceService.page_of s 1 limit "" (text_or_none (get args "status"))
    pure (listing page)

  -- The three tools that give an invoice a status, with the note that they pass on.
  unfoldable pub set_invoice_status : Row → Row → Action Value
  set_invoice_status args data' = do
    id ← required args "id"
    row ← InvoiceService.update env s (py_str id) data'
    pure (row_value row)

  unfoldable pub run_approve_invoice : Row → Action Value
  run_approve_invoice args = set_invoice_status args (("status", str "approved") ∷ [])

  unfoldable pub run_reject_invoice : Row → Action Value
  run_reject_invoice args =
      set_invoice_status args (("status", str "rejected") ∷ ("note", get args "reason") ∷ [])

  unfoldable pub run_request_invoice_revision : Row → Action Value
  run_request_invoice_revision args =
      let message = strip (str_append "Revision requested: " (text_or_none (get args "note"))) in
      set_invoice_status args (("status", str "revision_requested") ∷ ("note", str message) ∷ [])

  unfoldable pub run_list_contracts : Row → Action Value
  run_list_contracts args = do
    limit ← limit_of args
    page ← ContractService.page_of s 1 limit ""
    pure (listing page)

  unfoldable pub run_list_payments : Row → Action Value
  run_list_payments args = do
    limit ← limit_of args
    page ← PaymentService.page_of s 1 limit ""
    pure (listing page)

  unfoldable pub run_get_business_profile : Action Value
  run_get_business_profile = BusinessProfileService.fetch env s >>= λ row. pure (row_value row)

  -- The handler of a tool.
  unfoldable pub run_tool : ApiKeyScope → Tool → Row → Action Value
  run_tool scope list_work_orders args = run_list_work_orders args
  run_tool scope get_work_order args = run_get_work_order args
  run_tool scope create_work_order args = run_create_work_order args
  run_tool scope update_work_order_status args = run_update_work_order_status scope args
  run_tool scope list_invoices args = run_list_invoices args
  run_tool scope approve_invoice args = run_approve_invoice args
  run_tool scope reject_invoice args = run_reject_invoice args
  run_tool scope request_invoice_revision args = run_request_invoice_revision args
  run_tool scope list_contracts args = run_list_contracts args
  run_tool scope list_payments args = run_list_payments args
  run_tool scope get_business_profile args = run_get_business_profile

  unfoldable pub run_found : ApiKeyScope → Option Tool → Row → Action Value
  run_found scope none args = raise (validation "errors.validation_failed")
  run_found scope (some tool) args = run_tool scope tool args

  unfoldable pub call_tool : ApiKeyScope → String → Row → Action Value
  call_tool scope name args = run_found scope (lookup name tool_handlers) args
