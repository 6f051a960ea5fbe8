-- ===== src/Services/PaymentService.antt =====
-- `class PaymentService` of src/app/business/services/payment_service.py. A request's schema
-- guarantees that an amount is an integer, not negative; `amount_minor / 100` is exact to two digits
-- for the amounts below 2 ^ 52, and is modelled as if it always were.
pub mod Amount
pub mod Settlement
pub mod Keeping
use Prim.Native.String.{◌++◌ as str_append}
use python_workflow_service.Prelude.{
  ℕ, String, Bool, ◌&&◌, ◌||◌, Option, none, some, List, [], ◌∷◌, if◌then◌else◌,
}
use python_workflow_service.Value.{Value, str, num, truthy, or_default, is_text, is_none, py_str}
use python_workflow_service.Value.Dict.{Row, get, insert}
use python_workflow_service.Store.{
  Env, Action, payments, invoices, work_orders, pure, raise, skip, or_raise, ◌>>=◌, ◌>>◌,
}
use python_workflow_service.Crud.Payments
use python_workflow_service.Crud.Invoices
use python_workflow_service.Events.{diff_records, record_and_dispatch}
use python_workflow_service.Services.{
  Scope, missing_record, get_record, ensure_if_given, enum_value, prepare_update_payload,
  service_event,
}
use python_workflow_service.Services.InvoiceService
use python_workflow_service.Services.WorkOrderService
use python_workflow_service.Services.PaymentService.Amount.{money_text}

unfoldable pub prepare_create : Row → Row
unfolding get insert enum_value
prepare_create data' =
    let priced = insert "currency" (or_default (get data' "currency") (str "INR")) data' in
    let paid = insert "method" (enum_value (get priced "method") "bank_transfer") priced in
    insert "status" (enum_value (get paid "status") "completed") paid

-- No key is stripped.
unfoldable pub prepare_update : Row → Row
unfolding prepare_update_payload
prepare_update = prepare_update_payload ("date" ∷ "reference" ∷ "receipt" ∷ "notes" ∷ []) ""

unfoldable pub validate_references : Scope → Row → Action (Unit {0})
unfolding ensure_if_given get
validate_references s data' = do
  ensure_if_given invoices s (get data' "invoice_id")
  ensure_if_given work_orders s (get data' "work_order_id")

abbrev against : Value → String → String
against (num z) currency = str_append (money_text currency z) " against "
against _ currency = "Payment recorded against "

-- `_payment_timeline_note`.
unfoldable pub timeline_note : Value → String → String → Value → String
timeline_note amount_minor currency invoice_number reference =
    let text = str_append (against amount_minor currency) invoice_number in
    if truthy reference then str_append text (str_append " · Ref " (py_str reference)) else text

-- The note of `_settle_linked_invoice`.
unfoldable pub settlement_note : Row → Row → String
unfolding get timeline_note py_str
settlement_note payment invoice =
    timeline_note (get payment "amount")
      (py_str
        (or_default (get payment "currency") (or_default (get invoice "currency") (str "INR"))))
      (py_str (get invoice "invoice_number")) (get payment "reference")

-- `record.get("invoice_id") and (record.get("status") or "completed") == "completed"`.
unfoldable pub settles : Row → Bool
unfolding get
settles payment =
    truthy (get payment "invoice_id")
    && is_text (or_default (get payment "status") (str "completed")) "completed"

-- `list`; an invoice that is not given is "".
unfoldable pub page_of : Scope → ℕ → ℕ → String → Action (List Row × ℕ)
page_of s page page_size invoice_id =
    Payments.list s.tenant_id s.project_id page page_size invoice_id

module _ (env : Env) (s : Scope) where
  -- The entry of the work order, where the invoice or the payment names one.
  unfoldable pub note_release : Value → String → Action (Unit {0})
  note_release work_order_id note =
      if truthy work_order_id
      then WorkOrderService.append_timeline env s (py_str work_order_id) (record {
        event_type = "payment_released";
        note = some note;
        by_whom = none;
        from_state = none;
        to_state = none;
      })
        >> skip
      else skip

  -- The part of `_settle_linked_invoice` for an invoice that is found and not paid.
  unfoldable pub settle_open : Row → Row → Action (Unit {0})
  settle_open payment invoice = do
    let note = settlement_note payment invoice
    InvoiceService.update env s (py_str (get payment "invoice_id"))
        (("status", str "paid") ∷ ("payment_id", get payment "id") ∷ ("note", str note) ∷ [])
    note_release (or_default (get invoice "work_order_id") (get payment "work_order_id")) note

  unfoldable pub settle : Row → Option Row → Action (Unit {0})
  settle payment none = skip
  settle payment (some invoice) =
      if is_text (get invoice "status") "paid" then skip else settle_open payment invoice

  -- `_settle_linked_invoice`.
  unfoldable pub settle_linked_invoice : Row → Action (Unit {0})
  settle_linked_invoice payment = do
    invoice ← Invoices.get_by_id s.tenant_id s.project_id (py_str (get payment "invoice_id"))
    settle payment invoice

  unfoldable pub create : Row → Action Row
  create data' = do
    validate_references s data'
    record' ← Payments.create env s.tenant_id s.project_id (prepare_create data')
    record_and_dispatch env (service_event "payment" "created" record' [] s "fm")
    (if settles record' then settle_linked_invoice record' else skip)
    pure record'

  -- The part of `update` once there is something to write.
  unfoldable pub write : String → Row → Row → Action Row
  write entity_id before [] = pure before
  write entity_id before (entry ∷ entries) = do
    updated ← Payments.update env s.tenant_id s.project_id entity_id (entry ∷ entries)
    record' ← or_raise updated missing_record
    record_and_dispatch env
        (service_event "payment" "updated" record' (diff_records before record') s "fm")
    pure record'

  unfoldable pub update : String → Row → Action Row
  update entity_id data' = do
    before ← get_record payments s entity_id
    write entity_id before (prepare_update data')

  unfoldable pub delete : String → Action String
  delete entity_id = do
    before ← get_record payments s entity_id
    deleted ← Payments.soft_delete env s.tenant_id s.project_id entity_id
    (if deleted
        then record_and_dispatch env (service_event "payment" "deleted" before [] s "fm")
          >> pure entity_id
        else raise missing_record)
