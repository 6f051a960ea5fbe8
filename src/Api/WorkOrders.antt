-- ===== src/Api/WorkOrders.antt =====
-- src/app/api/v1/work_orders.py.
use python_workflow_service.Prelude.{ℕ, String, arith}
use python_workflow_service.Value.Dict.{Row}
use python_workflow_service.Store.{Env, Action, pure, work_orders, ◌>>=◌}
use python_workflow_service.Http.{Web, Response, success_response}
use python_workflow_service.Services.{Scope, get_record}
use python_workflow_service.Services.WorkOrderService
use python_workflow_service.Services.WorkOrderService.{Entry}
use python_workflow_service.Api.Reply.{
  retrieved, created, updated, deleted, listed, Answers, when_ok-Succeeds, listed-Answers,
  once-Answers, reply-Answers,
}

-- The routes with their parameters.
pub data Request : Type 0 where
  list : ℕ → ℕ → String → Request
  retrieve : String → Request
  create : Row → Request
  update : String → Row → Request
  delete : String → Request
  append_timeline : String → Entry → Request

module _ (w : Web) (env : Env) (language : String) (s : Scope) where
  unfoldable pub list_work_orders : ℕ → ℕ → String → Action Response
  unfolding listed
  list_work_orders page page_size state = do
    found ← WorkOrderService.page_of s page page_size state
    listed w language "WorkOrderResponse" page page_size found

  unfoldable pub get_work_order : String → Action Response
  get_work_order entity_id = do
    record' ← get_record work_orders s entity_id
    retrieved w language "WorkOrderResponse" record'

  unfoldable pub create_work_order : Row → Action Response
  create_work_order body = do
    record' ← WorkOrderService.create env s body
    created w language "WorkOrderResponse" record'

  unfoldable pub update_work_order : String → Row → Action Response
  update_work_order entity_id body = do
    record' ← WorkOrderService.update env s entity_id body
    updated w language "WorkOrderResponse" record'

  unfoldable pub delete_work_order : String → Action Response
  delete_work_order entity_id = do
    deleted_id ← WorkOrderService.delete env s entity_id
    deleted w language "DeleteIdResponse" deleted_id

  unfoldable pub append_work_order_timeline : String → Entry → Action Response
  unfolding success_response
  append_work_order_timeline entity_id entry = do
    timeline ← WorkOrderService.append_timeline env s entity_id entry
    pure (success_response w language "success.updated" 200 "2000" timeline)

  unfoldable pub handle : Request → Action Response
  handle (list page page_size state) = list_work_orders page page_size state
  handle (retrieve entity_id) = get_work_order entity_id
  handle (create body) = create_work_order body
  handle (update entity_id body) = update_work_order entity_id body
  handle (delete entity_id) = delete_work_order entity_id
  handle (append_timeline entity_id entry) = append_work_order_timeline entity_id entry

  pub handle-Answers : (r : Request) → Answers (handle r)
  unfolding handle list_work_orders get_work_order create_work_order update_work_order
      delete_work_order append_work_order_timeline
  handle-Answers (list page page_size state) db =
      when_ok-Succeeds _ _ (λ found. listed-Answers w language _ page page_size found)
  handle-Answers (retrieve entity_id) db =
      when_ok-Succeeds _ _ (λ row. once-Answers w language _ _ _ row)
  handle-Answers (create body) db =
      when_ok-Succeeds _ _ (λ row. reply-Answers w language _ _ 201 _ row (omega arith))
  handle-Answers (update entity_id body) db =
      when_ok-Succeeds _ _ (λ row. once-Answers w language _ _ _ row)
  handle-Answers (delete entity_id) db =
      when_ok-Succeeds _ _ (λ id. once-Answers w language _ _ _ _)
  handle-Answers (append_timeline entity_id entry) db =
      when_ok-Succeeds (WorkOrderService.append_timeline env s entity_id entry db) _
        (λ timeline db'. omega arith)
