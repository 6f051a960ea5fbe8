-- ===== src/Api/Invoices.antt =====
-- src/app/api/v1/invoices.py.
use python_workflow_service.Prelude.{[], ℕ, String, arith}
use python_workflow_service.Value.{Value}
use python_workflow_service.Value.Dict.{Row}
use python_workflow_service.Store.{Env, Action, pure, invoices, ◌>>=◌}
use python_workflow_service.Http.{Web, Response, success_response}
use python_workflow_service.Services.{Scope, get_record}
use python_workflow_service.Services.InvoiceService
use python_workflow_service.Api.Reply.{
  retrieved, created, updated, deleted, listed, Answers, when_ok-Succeeds, listed-Answers,
  once-Answers, reply-Answers,
}

-- The routes with their parameters.
pub data Request : Type 0 where
  list : ℕ → ℕ → String → String → Request
  retrieve : String → Request
  create : Row → Request
  update : String → Row → Request
  delete : String → Request
  append_timeline : String → String → Value → Value → Request

-- The body of the request; `[]` where it has none.
unfoldable pub body_of : Request → Row
body_of (create body) = body
body_of (update entity_id body) = body
body_of r = []

module _ (w : Web) (env : Env) (language : String) (s : Scope) where
  unfoldable pub list_invoices : ℕ → ℕ → String → String → Action Response
  unfolding listed
  list_invoices page page_size work_order_id status = do
    found ← InvoiceService.page_of s page page_size work_order_id status
    listed w language "InvoiceResponse" page page_size found

  unfoldable pub get_invoice : String → Action Response
  get_invoice entity_id = do
    record' ← get_record invoices s entity_id
    retrieved w language "InvoiceResponse" record'

  unfoldable pub create_invoice : Row → Action Response
  create_invoice body = do
    record' ← InvoiceService.create env s "fm" body
    created w language "InvoiceResponse" record'

  unfoldable pub update_invoice : String → Row → Action Response
  update_invoice entity_id body = do
    record' ← InvoiceService.update env s entity_id body
    updated w language "InvoiceResponse" record'

  unfoldable pub delete_invoice : String → Action Response
  delete_invoice entity_id = do
    deleted_id ← InvoiceService.delete env s entity_id
    deleted w language "DeleteIdResponse" deleted_id

  unfoldable pub append_invoice_timeline : String → String → Value → Value → Action Response
  unfolding success_response
  append_invoice_timeline entity_id event_type note by_whom = do
    timeline ← InvoiceService.append_timeline env s entity_id event_type note by_whom
    pure (success_response w language "success.updated" 200 "2000" timeline)

  unfoldable pub handle : Request → Action Response
  handle (list page page_size work_order_id status) =
      list_invoices page page_size work_order_id status
  handle (retrieve entity_id) = get_invoice entity_id
  handle (create body) = create_invoice body
  handle (update entity_id body) = update_invoice entity_id body
  handle (delete entity_id) = delete_invoice entity_id
  handle (append_timeline entity_id event_type note by_whom) =
      append_invoice_timeline entity_id event_type note by_whom

  pub handle-Answers : (r : Request) → Answers (handle r)
  unfolding handle list_invoices get_invoice create_invoice update_invoice delete_invoice
      append_invoice_timeline
  handle-Answers (list page page_size work_order_id status) db =
      when_ok-Succeeds _ _ (λ found. listed-Answers w language _ page page_size found)
  handle-Answers (retrieve entity_id) db =
      when_ok-Succeeds _ _ (λ row. once-Answers w language _ _ _ row)
  handle-Answers (create body) db =
      when_ok-Succeeds _ _ (λ row. reply-Answers w language _ _ 201 _ row (omega arith))
  handle-Answers (update entity_id body) db =
      when_ok-Succeeds _ _ (λ row. once-Answers w language _ _ _ row)
  handle-Answers (delete entity_id) db =
      when_ok-Succeeds _ _ (λ id. once-Answers w language _ _ _ _)
  handle-Answers (append_timeline entity_id event_type note by_whom) db =
      when_ok-Succeeds (InvoiceService.append_timeline env s entity_id event_type note by_whom db) _
        (λ timeline db'. omega arith)
