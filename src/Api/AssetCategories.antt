-- ===== src/Api/AssetCategories.antt =====
-- src/app/api/v1/asset_categories.py.
use python_workflow_service.Prelude.{ℕ, String, Option, arith}
use python_workflow_service.Store.{Env, Action, asset_categories, ◌>>=◌}
use python_workflow_service.Http.{Web, Response}
use python_workflow_service.Services.{Scope, get_record}
use python_workflow_service.Services.AssetCategoryService
use python_workflow_service.Api.Reply.{
  retrieved, created, updated, deleted, listed, Answers, when_ok-Succeeds, listed-Answers,
  once-Answers, reply-Answers,
}

-- The routes with their parameters.
pub data Request : Type 0 where
  list : ℕ → ℕ → String → Request
  retrieve : String → Request
  create : String → String → Option String → Request
  update : String → Option String → Option String → Option String → Request
  delete : String → Request

module _ (w : Web) (env : Env) (language : String) (s : Scope) where
  unfoldable pub list_asset_categories : ℕ → ℕ → String → Action Response
  unfolding listed
  list_asset_categories page page_size term = do
    found ← AssetCategoryService.page_of env s page page_size term
    listed w language "AssetCategoryResponse" page page_size found

  unfoldable pub get_asset_category : String → Action Response
  get_asset_category entity_id = do
    record' ← get_record asset_categories s entity_id
    retrieved w language "AssetCategoryResponse" record'

  unfoldable pub create_asset_category : String → String → Option String → Action Response
  create_asset_category name description parent_id = do
    record' ← AssetCategoryService.create env s name description parent_id
    created w language "AssetCategoryResponse" record'

  unfoldable pub update_asset_category :
      String → Option String → Option String → Option String → Action Response
  update_asset_category entity_id name description parent_id = do
    record' ← AssetCategoryService.update env s entity_id name description parent_id
    updated w language "AssetCategoryResponse" record'

  unfoldable pub delete_asset_category : String → Action Response
  delete_asset_category entity_id = do
    deleted_id ← AssetCategoryService.delete env s entity_id
    deleted w language "DeleteIdResponse" deleted_id

  unfoldable pub handle : Request → Action Response
  handle (list page page_size term) = list_asset_categories page page_size term
  handle (retrieve entity_id) = get_asset_category entity_id
  handle (create name description parent_id) = create_asset_category name description parent_id
  handle (update entity_id name description parent_id) =
      update_asset_category entity_id name description parent_id
  handle (delete entity_id) = delete_asset_category entity_id

  pub handle-Answers : (r : Request) → Answers (handle r)
  unfolding handle list_asset_categories get_asset_category create_asset_category
      update_asset_category delete_asset_category
  handle-Answers (list page page_size term) db =
      when_ok-Succeeds _ _ (λ found. listed-Answers w language _ page page_size found)
  handle-Answers (retrieve entity_id) db =
      when_ok-Succeeds _ _ (λ row. once-Answers w language _ _ _ row)
  handle-Answers (create name description parent_id) db =
      when_ok-Succeeds _ _ (λ row. reply-Answers w language _ _ 201 _ row (omega arith))
  handle-Answers (update entity_id name description parent_id) db =
      when_ok-Succeeds _ _ (λ row. once-Answers w language _ _ _ row)
  handle-Answers (delete entity_id) db =
      when_ok-Succeeds _ _ (λ id. once-Answers w language _ _ _ _)
