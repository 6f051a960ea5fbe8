-- ===== src/Crud/AssetCategories.antt =====
-- src/app/crud/crud_asset_categories.py. An argument of `list` that is not given is "".
use python_workflow_service.Prelude.{
  ℕ, String, Bool, true, ◌&&◌, Option, List, [], ◌∷◌, if◌then◌else◌,
}
use python_workflow_service.Prelude.Text.{is_empty}
use python_workflow_service.Value.{Value, str}
use python_workflow_service.Value.Dict.{Row, get}
use python_workflow_service.Store.{Env, Action, asset_categories}
use python_workflow_service.Store.Query
use python_workflow_service.Store.Query.{column_is, is_active, in_scope, list_page}
use python_workflow_service.Store.Order.{by_text}
use python_workflow_service.Store.Search.{column_matches}
use python_workflow_service.Models.{asset_category_defaults}

-- The WHERE clause of `list`.
unfoldable pub listed : String → String → String → Row → Bool
unfolding get column_matches
listed tenant_id project_id search_term r =
    column_is r "tenant_id" tenant_id
    && column_is r "project_id" project_id
    && is_active r
    && (if is_empty search_term then true else column_matches search_term r "name")

unfoldable pub list : Env → String → String → ℕ → ℕ → String → Action (List Row × ℕ)
unfolding listed list_page by_text
list env tenant_id project_id page page_size search_term =
    list_page asset_categories (listed tenant_id project_id search_term) (by_text env "name") page
      page_size

unfoldable pub get_by_id : String → String → String → Action (Option Row)
unfolding Query.get_by_id
get_by_id = Query.get_by_id asset_categories

module _ (env : Env) where
  unfoldable pub create : String → String → String → String → Value → Action Row
  unfolding Query.create asset_category_defaults
  create tenant_id project_id name description parent_id =
      Query.create env asset_categories "asset_category" asset_category_defaults tenant_id
        project_id
        (("name", str name) ∷ ("description", str description) ∷ ("parent_id", parent_id) ∷ [])

  unfoldable pub update : String → String → String → Row → Action (Option Row)
  unfolding Query.update
  update = Query.update env asset_categories

  unfoldable pub soft_delete : String → String → String → Action Bool
  unfolding Query.soft_delete
  soft_delete = Query.soft_delete env asset_categories
