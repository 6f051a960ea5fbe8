-- ===== src/Api/Assets.antt =====
-- src/app/api/v1/assets.py.
use python_workflow_service.Prelude.{[], ℕ, String, arith}
use python_workflow_service.Crud.Assets.{Filters}
use python_workflow_service.Value.Dict.{Row}
use python_workflow_service.Store.{Env, Action, assets, ◌>>=◌}
use python_workflow_service.Http.{Web, Response}
use python_workflow_service.Services.{Scope, get_record}
use python_workflow_service.Services.AssetService
use python_workflow_service.Api.Reply.{
  retrieved, created, updated, deleted, listed, Answers, when_ok-Succeeds, listed-Answers,
  once-Answers, reply-Answers,
}

-- The routes with their parameters.
pub data Request : Type 0 where
  list : ℕ → ℕ → Filters → Request
  retrieve : String → Request
  create : Row → Request
  update : String → Row → Request
  delete : String → Request

-- The body of the request; `[]` where it has none.
unfoldable pub body_of : Request → Row
body_of (create body) = body
body_of (update entity_id body) = body
body_of r = []

module _ (w : Web) (env : Env) (language : String) (s : Scope) where
  unfoldable pub list_assets : ℕ → ℕ → Filters → Action Response
  unfolding listed
  list_assets page page_size filters = do
    found ← AssetService.page_of env s page page_size filters
    listed w language "AssetResponse" page page_size found

  unfoldable pub get_asset : String → Action Response
  get_asset entity_id = do
    record' ← get_record assets s entity_id
    retrieved w language "AssetResponse" record'

  unfoldable pub create_asset : Row → Action Response
  create_asset body = do
    record' ← AssetService.create env s body
    created w language "AssetResponse" record'

  unfoldable pub update_asset : String → Row → Action Response
  update_asset entity_id body = do
    record' ← AssetService.update env s entity_id body
    updated w language "AssetResponse" record'

  unfoldable pub delete_asset : String → Action Response
  delete_asset entity_id = do
    deleted_id ← AssetService.delete env s entity_id
    deleted w language "DeleteIdResponse" deleted_id

  unfoldable pub handle : Request → Action Response
  handle (list page page_size filters) = list_assets page page_size filters
  handle (retrieve entity_id) = get_asset entity_id
  handle (create body) = create_asset body
  handle (update entity_id body) = update_asset entity_id body
  handle (delete entity_id) = delete_asset entity_id

  pub handle-Answers : (r : Request) → Answers (handle r)
  unfolding handle list_assets get_asset create_asset update_asset delete_asset
  handle-Answers (list page page_size filters) db =
      when_ok-Succeeds _ _ (λ found. listed-Answers w language _ page page_size found)
  handle-Answers (retrieve entity_id) db =
      when_ok-Succeeds _ _ (λ row. once-Answers w language _ _ _ row)
  handle-Answers (create body) db =
      when_ok-Succeeds _ _ (λ row. reply-Answers w language _ _ 201 _ row (omega arith))
  handle-Answers (update entity_id body) db =
      when_ok-Succeeds _ _ (λ row. once-Answers w language _ _ _ row)
  handle-Answers (delete entity_id) db =
      when_ok-Succeeds _ _ (λ id. once-Answers w language _ _ _ _)
