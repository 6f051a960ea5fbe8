-- ===== src/Api/Payments.antt =====
-- src/app/api/v1/payments.py.
use python_workflow_service.Prelude.{[], ℕ, String, arith}
use python_workflow_service.Value.Dict.{Row}
use python_workflow_service.Store.{Env, Action, payments, ◌>>=◌}
use python_workflow_service.Http.{Web, Response}
use python_workflow_service.Services.{Scope, get_record}
use python_workflow_service.Services.PaymentService
use python_workflow_service.Api.Reply.{
  retrieved, created, updated, deleted, listed, Answers, when_ok-Succeeds, listed-Answers,
  once-Answers, reply-Answers,
}

-- The routes with their parameters.
pub data Request : Type 0 where
  list : ℕ → ℕ → String → Request
  retrieve : String → Request
  create : Row → Request
  update : String → Row → Request
  delete : String → Request

-- The body of the request; `[]` where it has none.
unfoldable pub body_of : Request → Row
body_of (create body) = body
body_of (update entity_id body) = body
body_of r = []

module _ (w : Web) (env : Env) (language : String) (s : Scope) where
  unfoldable pub list_payments : ℕ → ℕ → String → Action Response
  unfolding listed
  list_payments page page_size invoice_id = do
    found ← PaymentService.page_of s page page_size invoice_id
    listed w language "PaymentResponse" page page_size found

  unfoldable pub get_payment : String → Action Response
  get_payment entity_id = do
    record' ← get_record payments s entity_id
    retrieved w language "PaymentResponse" record'

  unfoldable pub create_payment : Row → Action Response
  create_payment body = do
    record' ← PaymentService.create env s body
    created w language "PaymentResponse" record'

  unfoldable pub update_payment : String → Row → Action Response
  update_payment entity_id body = do
    record' ← PaymentService.update env s entity_id body
    updated w language "PaymentResponse" record'

  unfoldable pub delete_payment : String → Action Response
  delete_payment entity_id = do
    deleted_id ← PaymentService.delete env s entity_id
    deleted w language "DeleteIdResponse" deleted_id

  unfoldable pub handle : Request → Action Response
  handle (list page page_size invoice_id) = list_payments page page_size invoice_id
  handle (retrieve entity_id) = get_payment entity_id
  handle (create body) = create_payment body
  handle (update entity_id body) = update_payment entity_id body
  handle (delete entity_id) = delete_payment entity_id

  pub handle-Answers : (r : Request) → Answers (handle r)
  unfolding handle list_payments get_payment create_payment update_payment delete_payment
  handle-Answers (list page page_size invoice_id) db =
      when_ok-Succeeds _ _ (λ found. listed-Answers w language _ page page_size found)
  handle-Answers (retrieve entity_id) db =
      when_ok-Succeeds _ _ (λ row. once-Answers w language _ _ _ row)
  handle-Answers (create body) db =
      when_ok-Succeeds _ _ (λ row. reply-Answers w language _ _ 201 _ row (omega arith))
  handle-Answers (update entity_id body) db =
      when_ok-Succeeds _ _ (λ row. once-Answers w language _ _ _ row)
  handle-Answers (delete entity_id) db =
      when_ok-Succeeds _ _ (λ id. once-Answers w language _ _ _ _)
