-- ===== src/Crud/Assets.antt =====
-- src/app/crud/crud_assets.py, with the unique constraint of src/app/models/asset.py: no two rows of a
-- project have the same code, deleted rows included. An argument of `list` that is not given is "".
use python_workflow_service.Prelude.{
  ℕ, String, Bool, true, not, ◌&&◌, ◌||◌, Option, List, any, if◌then◌else◌,
}
use python_workflow_service.Prelude.Text.{is_empty}
use python_workflow_service.Value.{Value, value_eq}
use python_workflow_service.Value.Dict.{Row, get, has_key}
use python_workflow_service.Store.{Env, Action, assets, gets, raise, duplicate_value, ◌>>=◌}
use python_workflow_service.Store.Query
use python_workflow_service.Store.Query.{column_is, is_active, in_scope, list_page}
use python_workflow_service.Store.Order.{by_text}
use python_workflow_service.Store.Search.{column_matches}
use python_workflow_service.Models.{asset_defaults}

-- The filters of `list`.
pub record Filters : Type 0 where
  pub search_term : String
  pub category_id : String
  pub status : String
  pub location_id : String
  pub contract_id : String

-- The WHERE clause of `list`.
unfoldable pub listed : String → String → Filters → Row → Bool
unfolding get column_matches
listed tenant_id project_id f r =
    column_is r "tenant_id" tenant_id
    && column_is r "project_id" project_id
    && is_active r
    && (if is_empty f.category_id then true else column_is r "category_id" f.category_id)
    && (if is_empty f.status then true else column_is r "status" f.status)
    && (if is_empty f.location_id then true else column_is r "location_id" f.location_id)
    && (if is_empty f.contract_id then true else column_is r "contract_id" f.contract_id)
    && (if is_empty f.search_term
        then true
        else column_matches f.search_term r "name"
          || column_matches f.search_term r "code"
          || column_matches f.search_term r "serial_number")

unfoldable pub list : Env → String → String → ℕ → ℕ → Filters → Action (List Row × ℕ)
unfolding listed list_page by_text
list env tenant_id project_id page page_size f =
    list_page assets (listed tenant_id project_id f) (by_text env "name") page page_size

unfoldable pub get_by_id : String → String → String → Action (Option Row)
unfolding Query.get_by_id
get_by_id = Query.get_by_id assets

-- Another row of the project has the code.
unfoldable pub is_taken : String → String → Value → Row → Bool
unfolding get value_eq
is_taken project_id entity_id asset_code r =
    column_is r "project_id" project_id
    && value_eq (get r "code") asset_code
    && not (column_is r "id" entity_id)

-- Whether an update breaks the constraint: it changes a row, and gives it the code of another.
unfoldable pub update_conflicts : String → String → String → Row → List Row → Bool
unfolding in_scope is_taken
update_conflicts tenant_id project_id entity_id data' rs =
    has_key data' "code"
    && any (in_scope tenant_id project_id entity_id) rs
    && any (is_taken project_id entity_id (get data' "code")) rs

module _ (env : Env) where
  -- `create`, and `IntegrityError` as the service reports it.
  unfoldable pub create : String → String → Row → Action Row
  unfolding Query.create asset_defaults is_taken
  create tenant_id project_id data' = do
    taken ← gets (λ db. any (is_taken project_id "" (get data' "code")) (db.rows assets))
    (if taken
        then raise (duplicate_value "assets.errors.duplicate_code")
        else Query.create env assets "asset" asset_defaults tenant_id project_id data')

  unfoldable pub update : String → String → String → Row → Action (Option Row)
  unfolding Query.update update_conflicts
  update tenant_id project_id entity_id data' = do
    taken ← gets (λ db. update_conflicts tenant_id project_id entity_id data' (db.rows assets))
    (if taken
        then raise (duplicate_value "assets.errors.duplicate_code")
        else Query.update env assets tenant_id project_id entity_id data')

  unfoldable pub soft_delete : String → String → String → Action Bool
  unfolding Query.soft_delete
  soft_delete = Query.soft_delete env assets
