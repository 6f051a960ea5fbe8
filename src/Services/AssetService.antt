-- ===== src/Services/AssetService.antt =====
-- `class AssetService` of src/app/business/services/asset_service.py. A request's schema guarantees
-- that the name and the code are texts.
use python_workflow_service.Prelude.{ℕ, String, ◌||◌, List, [], ◌∷◌, str_eq, if◌then◌else◌}
use python_workflow_service.Value.{str, is_none, truthy, py_str}
use python_workflow_service.Value.Dict.{Row, get, insert}
use python_workflow_service.Store.{
  Env, Action, assets, asset_categories, pure, raise, skip, or_raise, ◌>>=◌, ◌>>◌,
}
use python_workflow_service.Crud.Assets
use python_workflow_service.Services.{
  Scope, missing_record, get_record, ensure_exists, stripped, plain,
}

unfoldable pub prepare_create : Row → Row
unfolding get insert
prepare_create data' =
    let named = insert "name" (stripped (get data' "name")) data' in
    let coded = insert "code" (stripped (get named "code")) named in
    let status =
      if is_none (get coded "status") then str "operational" else plain (get coded "status") in
    let stated = insert "status" status coded in
    if is_none (get stated "currency") then insert "currency" (str "INR") stated else stated

unfoldable pub prepare_update : Row → Row
prepare_update [] = []
prepare_update ((key, value) ∷ data') =
    let rest = prepare_update data' in
    if is_none value
    then rest
    else (
      key,
      (if str_eq key "name" || str_eq key "code"
          then stripped value
          else (if str_eq key "status" then plain value else value)),
    )
      ∷ rest

-- `list`.
unfoldable pub page_of : Env → Scope → ℕ → ℕ → Assets.Filters → Action (List Row × ℕ)
page_of env s page page_size f = Assets.list env s.tenant_id s.project_id page page_size f

module _ (env : Env) (s : Scope) where
  unfoldable pub create : Row → Action Row
  create data' = do
    ensure_exists asset_categories s (py_str (get data' "category_id"))
    Assets.create env s.tenant_id s.project_id (prepare_create data')

  -- The part of `update` after the check of the category.
  unfoldable pub write : String → Row → Action Row
  write entity_id [] = get_record assets s entity_id
  write entity_id (entry ∷ entries) = do
    updated ← Assets.update env s.tenant_id s.project_id entity_id (entry ∷ entries)
    or_raise updated missing_record

  unfoldable pub update : String → Row → Action Row
  update entity_id data' = do
    (if truthy (get data' "category_id")
        then ensure_exists asset_categories s (py_str (get data' "category_id"))
        else skip)
    write entity_id (prepare_update data')

  unfoldable pub delete : String → Action String
  delete entity_id = do
    deleted ← Assets.soft_delete env s.tenant_id s.project_id entity_id
    (if deleted then pure entity_id else raise missing_record)
