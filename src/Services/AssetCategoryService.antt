-- ===== src/Services/AssetCategoryService.antt =====
-- `class AssetCategoryService` of src/app/business/services/asset_category_service.py.
use python_workflow_service.Prelude.{
  ℕ, String, Option, none, some, List, [], ◌∷◌, ◌++◌, if◌then◌else◌,
}
use python_workflow_service.Prelude.Text.{strip, is_empty}
use python_workflow_service.Value.{Value, null, str}
use python_workflow_service.Value.Dict.{Row}
use python_workflow_service.Store.{
  Env, Action, asset_categories, pure, raise, skip, or_raise, ◌>>=◌, ◌>>◌,
}
use python_workflow_service.Crud.AssetCategories
use python_workflow_service.Services.{Scope, missing_record, get_record, ensure_exists}

-- `parent_id or None`.
abbrev text_or_null : String → Value
text_or_null s = if is_empty s then null else str s

-- An argument that is left out of the data when it is `None`.
abbrev pub given : String → Option Value → Row
given key none = []
given key (some v) = (key, v) ∷ []

abbrev map_text : (String → Value) → Option String → Option Value
map_text f none = none
map_text f (some s) = some (f s)

-- The `data` of `update`.
unfoldable pub update_data : Option String → Option String → Option String → Row
update_data name description parent_id =
    given "name" (map_text (λ s. str (strip s)) name)
    ++ given "description" (map_text (λ s. str s) description)
    ++ given "parent_id" (map_text text_or_null parent_id)

unfoldable pub ensure_parent : Scope → Option String → Action (Unit {0})
ensure_parent s none = skip
ensure_parent s (some parent_id) =
    if is_empty parent_id then skip else ensure_exists asset_categories s parent_id

-- `list`.
unfoldable pub page_of : Env → Scope → ℕ → ℕ → String → Action (List Row × ℕ)
page_of env s page page_size term =
    AssetCategories.list env s.tenant_id s.project_id page page_size term

module _ (env : Env) (s : Scope) where
  unfoldable pub create : String → String → Option String → Action Row
  create name description none =
      AssetCategories.create env s.tenant_id s.project_id (strip name) description null
  create name description (some parent_id) =
      ensure_parent s (some parent_id)
      >> AssetCategories.create env s.tenant_id s.project_id (strip name) description
          (str parent_id)

  unfoldable pub write : String → Row → Action Row
  write entity_id [] = get_record asset_categories s entity_id
  write entity_id (entry ∷ entries) = do
    updated ← AssetCategories.update env s.tenant_id s.project_id entity_id (entry ∷ entries)
    or_raise updated missing_record

  unfoldable pub update : String → Option String → Option String → Option String → Action Row
  update entity_id name description parent_id = do
    ensure_parent s parent_id
    write entity_id (update_data name description parent_id)

  unfoldable pub delete : String → Action String
  delete entity_id = do
    deleted ← AssetCategories.soft_delete env s.tenant_id s.project_id entity_id
    (if deleted then pure entity_id else raise missing_record)
