-- ===== src/Services/McpService/ReadOnly.antt =====
-- Which tools of src/app/business/services/mcp_service.py there are, and which of them only read.

use python_workflow_service.Prelude.{
  String, ◌≡◌, refl, Bool, true, false, Option, none, some, List, [], ◌∷◌, find, lookup, ℤ, pos,
  negsuc, str_eq, arith, Bool-cases, inl, inr,
}
use python_workflow_service.Value.{py_str}
use python_workflow_service.Value.Dict.{Row, has_key}
use python_workflow_service.Store.{
  Db, Env, Action, Result, ok, err, Error, validation, work_orders, or_raise, when_ok, ◌>>=◌,
}
use python_workflow_service.Store.Query
use python_workflow_service.Store.Query.{in_scope, list_page, select_one}
use python_workflow_service.Crud.WorkOrders
use python_workflow_service.Crud.Invoices
use python_workflow_service.Crud.Contracts
use python_workflow_service.Crud.Payments
use python_workflow_service.Scheduler.Data.{has_text}
use python_workflow_service.Services.{Scope, missing_record, get_record}
use python_workflow_service.Services.ContractService
use python_workflow_service.Services.InvoiceService
use python_workflow_service.Services.PaymentService
use python_workflow_service.Services.WorkOrderService
use python_workflow_service.Services.ApiKeyService.{ApiKeyScope}
use python_workflow_service.Services.McpService.{
  Tool, list_work_orders, get_work_order, create_work_order, update_work_order_status,
  list_invoices, approve_invoice, reject_invoice, request_invoice_revision, list_contracts,
  list_payments, get_business_profile, mcp_tools, tool_handlers, required, checked_limit, limit_of,
  run_list_work_orders, run_get_work_order, run_list_invoices, run_list_contracts,
  run_list_payments, run_tool, run_found, call_tool,
}

abbrev ReadOnly {ℓ} : {A : Type ℓ} → Action A → Type 0
ReadOnly act = (db : Db) → (act db).1 ≡ db

module _ {A B : Type 0} where
  when_ok_db :
      (k : A → Action B) (db : Db) (r : Result A × Db)
      → r.1 ≡ db
      → ((a : A) → ReadOnly (k a))
      → (when_ok r k).1 ≡ db
  when_ok_db k db (ok a, db') same h = rw (h a db') same
  when_ok_db k db (err e, db') same h = same

  bind-ReadOnly :
      (m : Action A) (k : A → Action B)
      → ReadOnly m
      → ((a : A) → ReadOnly (k a))
      → ReadOnly (m >>= k)
  bind-ReadOnly m k hm hk db = when_ok_db k db (m db) (hm db) hk

or_raise-ReadOnly : {A : Type 0} (o : Option A) (e : Error) → ReadOnly (or_raise o e)
or_raise-ReadOnly none e db = refl
or_raise-ReadOnly (some a) e db = refl

checked_limit-ReadOnly : (o : Option ℤ) → ReadOnly (checked_limit o)
unfolding checked_limit
checked_limit-ReadOnly none db = refl
checked_limit-ReadOnly (some (pos n)) db = refl
checked_limit-ReadOnly (some (negsuc n)) db = refl

limit_of-ReadOnly : (args : Row) → ReadOnly (limit_of args)
unfolding limit_of
limit_of-ReadOnly args = checked_limit-ReadOnly _

required-ReadOnly : (args : Row) (key : String) → ReadOnly (required args key)
unfolding required
required-ReadOnly args key db = elim (Bool-cases (has_key args key)) [
  | inl there ↦ rw there refl
  | inr absent ↦ rw absent refl
]

get_record-ReadOnly :
    (s : Scope) (entity_id : String) → ReadOnly (get_record work_orders s entity_id)
unfolding get_record Query.get_by_id select_one
get_record-ReadOnly s entity_id db =
    or_raise-ReadOnly (find (in_scope s.tenant_id s.project_id entity_id) (db.rows work_orders))
      missing_record db

-- The tools that list something, and the one that gets a work order.
abbrev pub only_reads : Tool → Bool
only_reads list_work_orders = true
only_reads get_work_order = true
only_reads list_invoices = true
only_reads list_contracts = true
only_reads list_payments = true
only_reads _ = false

module _ (env : Env) (s : Scope) (scope : ApiKeyScope) where
  -- A tool that lists something or gets a work order leaves the database as it was, whatever its
  -- arguments and whether or not it fails. Getting the business profile is not among them.
  pub run_tool-only_reads :
      (tool : Tool) (args : Row) (db : Db)
      → only_reads tool ≡ true
      → (run_tool env s scope tool args db).1 ≡ db
  unfolding run_tool run_list_work_orders run_get_work_order run_list_invoices run_list_contracts
      run_list_payments WorkOrderService.page_of InvoiceService.page_of ContractService.page_of
      PaymentService.page_of WorkOrders.list Invoices.list Contracts.list Payments.list list_page
  run_tool-only_reads list_work_orders args db h =
      bind-ReadOnly (limit_of args) _ (limit_of-ReadOnly args) (λ n db'. refl) db
  run_tool-only_reads get_work_order args db h =
      bind-ReadOnly (required args "id") _ (required-ReadOnly args "id")
        (λ id.
          bind-ReadOnly (get_record work_orders s (py_str id)) _ (get_record-ReadOnly s _)
            (λ r db'. refl))
        db
  run_tool-only_reads list_invoices args db h =
      bind-ReadOnly (limit_of args) _ (limit_of-ReadOnly args) (λ n db'. refl) db
  run_tool-only_reads list_contracts args db h =
      bind-ReadOnly (limit_of args) _ (limit_of-ReadOnly args) (λ n db'. refl) db
  run_tool-only_reads list_payments args db h =
      bind-ReadOnly (limit_of args) _ (limit_of-ReadOnly args) (λ n db'. refl) db
  run_tool-only_reads create_work_order args db h = ground arith
  run_tool-only_reads update_work_order_status args db h = ground arith
  run_tool-only_reads approve_invoice args db h = ground arith
  run_tool-only_reads reject_invoice args db h = ground arith
  run_tool-only_reads request_invoice_revision args db h = ground arith
  run_tool-only_reads get_business_profile args db h = ground arith

abbrev names : List (String × Tool) → List String
names [] = []
names ((k, tool) ∷ d) = k ∷ names d

-- A name has a handler just where it is listed.
abbrev Handled : String → List (String × Tool) → Bool → Type 0
Handled name d false = lookup name d ≡ none
Handled name d true = (tool : Tool) × (lookup name d ≡ some tool)

passed_over :
    (name k : String) (tool : Tool) (d : List (String × Tool)) (listed : Bool)
    → str_eq k name ≡ false
    → Handled name d listed
    → Handled name ((k, tool) ∷ d) listed
passed_over name k tool d false other' h = rw other' h
passed_over name k tool d true other' h = rw other' h

lookup-Handled :
    (name : String) (d : List (String × Tool)) → Handled name d (has_text (names d) name)
lookup-Handled name [] = refl
lookup-Handled name ((k, tool) ∷ d) = elim (Bool-cases (str_eq k name)) [
  | inl same ↦ rw same (tool, rw same refl)
  | inr other' ↦
      rw other' (passed_over name k tool d (has_text (names d) name) other' (lookup-Handled name d))
]

module _ (env : Env) (s : Scope) (scope : ApiKeyScope) where
  -- A call of a name that is not listed is refused and changes nothing; a call of one that is runs
  -- the handler that the name has.
  abbrev pub Called : String → Row → Db → Bool → Type 0
  Called name args db false =
      call_tool env s scope name args db ≡ (err (validation "errors.validation_failed"), db)
  Called name args db true =
      (tool : Tool) × (lookup name tool_handlers ≡ some tool)
      × (call_tool env s scope name args db ≡ run_tool env s scope tool args db)

  called :
      (name : String) (args : Row) (db : Db) (listed : Bool)
      → Handled name tool_handlers listed
      → Called name args db listed
  unfolding call_tool run_found
  called name args db false h = rw h refl
  called name args db true (tool, found) = (tool, found, rw found refl)

  -- The tools that are listed are the tools that can be called. A call of a name that `mcp_tools`
  -- does not list is refused as invalid and changes nothing; a call of one that it lists runs the
  -- handler that the name has.
  pub call_tool_lem :
      (name : String) (args : Row) (db : Db) → Called name args db (has_text mcp_tools name)
  call_tool_lem name args db =
      called name args db (has_text mcp_tools name) (lookup-Handled name tool_handlers)
