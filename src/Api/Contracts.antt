-- ===== src/Api/Contracts.antt =====
-- src/app/api/v1/contracts.py.
use python_workflow_service.Prelude.{ℕ, String, arith}
use python_workflow_service.Value.Dict.{Row}
use python_workflow_service.Store.{Env, Action, contracts, ◌>>=◌}
use python_workflow_service.Http.{Web, Response}
use python_workflow_service.Services.{Scope, get_record}
use python_workflow_service.Services.ContractService
use python_workflow_service.Api.Reply.{
  retrieved, created, updated, deleted, listed, Answers, when_ok-Succeeds, listed-Answers,
  once-Answers, reply-Answers,
}

-- The routes with their parameters.
pub data Request : Type 0 where
  list : ℕ → ℕ → String → Request
  retrieve : String → Request
  create : Row → Request
  update : String → Row → Request
  delete : String → Request

module _ (w : Web) (env : Env) (language : String) (s : Scope) where
  unfoldable pub list_contracts : ℕ → ℕ → String → Action Response
  unfolding listed
  list_contracts page page_size status = do
    found ← ContractService.page_of s page page_size status
    listed w language "ContractResponse" page page_size found

  unfoldable pub get_contract : String → Action Response
  get_contract entity_id = do
    record' ← get_record contracts s entity_id
    retrieved w language "ContractResponse" record'

  unfoldable pub create_contract : Row → Action Response
  create_contract body = do
    record' ← ContractService.create env s body
    created w language "ContractResponse" record'

  unfoldable pub update_contract : String → Row → Action Response
  update_contract entity_id body = do
    record' ← ContractService.update env s entity_id body
    updated w language "ContractResponse" record'

  unfoldable pub delete_contract : String → Action Response
  delete_contract entity_id = do
    deleted_id ← ContractService.delete env s entity_id
    deleted w language "DeleteIdResponse" deleted_id

  unfoldable pub handle : Request → Action Response
  handle (list page page_size status) = list_contracts page page_size status
  handle (retrieve entity_id) = get_contract entity_id
  handle (create body) = create_contract body
  handle (update entity_id body) = update_contract entity_id body
  handle (delete entity_id) = delete_contract entity_id

  pub handle-Answers : (r : Request) → Answers (handle r)
  unfolding handle list_contracts get_contract create_contract update_contract delete_contract
  handle-Answers (list page page_size status) db =
      when_ok-Succeeds _ _ (λ found. listed-Answers w language _ page page_size found)
  handle-Answers (retrieve entity_id) db =
      when_ok-Succeeds _ _ (λ row. once-Answers w language _ _ _ row)
  handle-Answers (create body) db =
      when_ok-Succeeds _ _ (λ row. reply-Answers w language _ _ 201 _ row (omega arith))
  handle-Answers (update entity_id body) db =
      when_ok-Succeeds _ _ (λ row. once-Answers w language _ _ _ row)
  handle-Answers (delete entity_id) db =
      when_ok-Succeeds _ _ (λ id. once-Answers w language _ _ _ _)
