-- ===== src/Services/Isolation/Records.antt =====
-- The services of the assets and their categories of src/app/business/services leave the rows of other tenants
-- and projects alone.
use python_workflow_service.Prelude.{
  String, ◌≡◌, refl, false, Option, none, some, [], ◌∷◌, any, arith, if◌then◌else◌, str_eq,
}
use python_workflow_service.Prelude.Text.{strip, is_empty}
use python_workflow_service.Value.{Value, null, str, truthy, py_str}
use python_workflow_service.Value.Dict.{Row, get, has_key}
use python_workflow_service.Models.{asset_defaults, asset_category_defaults}
use python_workflow_service.Store.{Env, assets, asset_categories, skip, duplicate_value}
use python_workflow_service.Store.Outside.{
  Unscoped, when_ok-Kept, update-Keeps, soft_delete-Keeps, create-Keeps, insert-absent,
}
use python_workflow_service.Crud.Assets
use python_workflow_service.Crud.AssetCategories
use python_workflow_service.Services
use python_workflow_service.Services.{Scope, stripped}
use python_workflow_service.Services.AssetService
use python_workflow_service.Services.AssetCategoryService
use python_workflow_service.Services.Isolation.{
  Stays, get_record-Stays, ensure_exists-Stays, decided-Stays, same-Stays, raise-Stays,
  deleted-Stays, found-Stays, if-absent,
}

module _ (k : String) where
  asset_create-absent :
      (d : Row)
      → str_eq "name" k ≡ false
      → str_eq "code" k ≡ false
      → str_eq "status" k ≡ false
      → str_eq "currency" k ≡ false
      → has_key d k ≡ false
      → has_key (AssetService.prepare_create d) k ≡ false
  unfolding AssetService.prepare_create
  asset_create-absent d h1 h2 h3 h4 h =
      let named = insert-absent k "name" (stripped (get d "name")) d h1 h in
      let coded = insert-absent k "code" _ _ h2 named in
      let stated = insert-absent k "status" _ _ h3 coded in
      if-absent k _ _ _ (insert-absent k "currency" (str "INR") _ h4 stated) stated

  asset_update-absent :
      (d : Row) → has_key d k ≡ false → has_key (AssetService.prepare_update d) k ≡ false
  unfolding AssetService.prepare_update has_key
  asset_update-absent [] h = refl
  asset_update-absent ((j, v) ∷ d) h = ground (arith, asset_update-absent d)

asset_create-Unscoped : (d : Row) → Unscoped d → Unscoped (AssetService.prepare_create d)
asset_create-Unscoped d (h1, h2) = (
  asset_create-absent "tenant_id" d refl refl refl refl h1,
  asset_create-absent "project_id" d refl refl refl refl h2,
)

asset_update-Unscoped : (d : Row) → Unscoped d → Unscoped (AssetService.prepare_update d)
asset_update-Unscoped d (h1, h2) =
    (asset_update-absent "tenant_id" d h1, asset_update-absent "project_id" d h2)

module _ (env : Env) (s : Scope) where
  module _ (data' : Row) (h : Unscoped data') where
    store_asset-Stays : Stays s (Assets.create env s.tenant_id s.project_id data')
    unfolding Assets.create
    store_asset-Stays db =
        decided-Stays s (any (Assets.is_taken s.project_id "" (get data' "code")) (db.rows assets))
          _ _ (raise-Stays s Row (duplicate_value "assets.errors.duplicate_code"))
          (create-Keeps s.tenant_id s.project_id env assets "asset" asset_defaults data' h) db

    change_asset-Stays :
        (entity_id : String) → Stays s (Assets.update env s.tenant_id s.project_id entity_id data')
    unfolding Assets.update
    change_asset-Stays entity_id db =
        decided-Stays s
          (Assets.update_conflicts s.tenant_id s.project_id entity_id data' (db.rows assets)) _ _
          (raise-Stays s (Option Row) (duplicate_value "assets.errors.duplicate_code"))
          (update-Keeps s.tenant_id s.project_id env assets entity_id data' h) db

  -- Assets.
  pub create_asset-Stays :
      (data' : Row) → Unscoped data' → Stays s (AssetService.create env s data')
  unfolding AssetService.create
  create_asset-Stays data' h db =
      let category = py_str (get data' "category_id") in
      when_ok-Kept s.tenant_id s.project_id _ db
        (Services.ensure_exists asset_categories s category db)
        (ensure_exists-Stays s asset_categories category db)
        (λ _. store_asset-Stays (AssetService.prepare_create data') (asset_create-Unscoped data' h))

  write_asset-Stays :
      (entity_id : String) (payload : Row)
      → Unscoped payload
      → Stays s (AssetService.write env s entity_id payload)
  unfolding AssetService.write
  write_asset-Stays entity_id [] h = get_record-Stays s assets entity_id
  write_asset-Stays entity_id (entry ∷ entries) h =
      found-Stays s _ (change_asset-Stays (entry ∷ entries) h entity_id)

  pub update_asset-Stays :
      (entity_id : String) (data' : Row)
      → Unscoped data'
      → Stays s (AssetService.update env s entity_id data')
  unfolding AssetService.update
  update_asset-Stays entity_id data' h db =
      let category = py_str (get data' "category_id") in
      let given = truthy (get data' "category_id") in
      when_ok-Kept s.tenant_id s.project_id _ db
        ((if given then Services.ensure_exists asset_categories s category else skip) db)
        (decided-Stays s given _ _ (ensure_exists-Stays s asset_categories category)
          (same-Stays s tt) db)
        (λ _.
          write_asset-Stays entity_id (AssetService.prepare_update data')
            (asset_update-Unscoped data' h))

  pub delete_asset-Stays : (entity_id : String) → Stays s (AssetService.delete env s entity_id)
  unfolding AssetService.delete Assets.soft_delete
  delete_asset-Stays entity_id =
      deleted-Stays s entity_id (Assets.soft_delete env s.tenant_id s.project_id entity_id)
        (soft_delete-Keeps s.tenant_id s.project_id env assets entity_id)

  -- Asset categories.
  ensure_parent-Stays :
      (parent_id : Option String) → Stays s (AssetCategoryService.ensure_parent s parent_id)
  unfolding AssetCategoryService.ensure_parent
  ensure_parent-Stays none = same-Stays s tt
  ensure_parent-Stays (some parent_id) =
      decided-Stays s (is_empty parent_id) _ _ (same-Stays s tt)
        (ensure_exists-Stays s asset_categories parent_id)

  store_category-Stays :
      (name description : String) (parent_id : Value)
      → Stays s (AssetCategories.create env s.tenant_id s.project_id name description parent_id)
  unfolding AssetCategories.create has_key
  store_category-Stays name description parent_id =
      create-Keeps s.tenant_id s.project_id env asset_categories "asset_category"
        asset_category_defaults
        (("name", str name) ∷ ("description", str description) ∷ ("parent_id", parent_id) ∷ [])
        (refl, refl)

  pub create_category-Stays :
      (name description : String) (parent_id : Option String)
      → Stays s (AssetCategoryService.create env s name description parent_id)
  unfolding AssetCategoryService.create
  create_category-Stays name description none db =
      store_category-Stays (strip name) description null db
  create_category-Stays name description (some parent_id) db =
      when_ok-Kept s.tenant_id s.project_id _ db
        (AssetCategoryService.ensure_parent s (some parent_id) db)
        (ensure_parent-Stays (some parent_id) db)
        (λ _. store_category-Stays (strip name) description (str parent_id))

  category_data-Unscoped :
      (name description parent_id : Option String)
      → Unscoped (AssetCategoryService.update_data name description parent_id)
  unfolding AssetCategoryService.update_data has_key
  category_data-Unscoped none none none = (refl, refl)
  category_data-Unscoped none none (some p) = (refl, refl)
  category_data-Unscoped none (some d) none = (refl, refl)
  category_data-Unscoped none (some d) (some p) = (refl, refl)
  category_data-Unscoped (some n) none none = (refl, refl)
  category_data-Unscoped (some n) none (some p) = (refl, refl)
  category_data-Unscoped (some n) (some d) none = (refl, refl)
  category_data-Unscoped (some n) (some d) (some p) = (refl, refl)

  write_category-Stays :
      (entity_id : String) (payload : Row)
      → Unscoped payload
      → Stays s (AssetCategoryService.write env s entity_id payload)
  unfolding AssetCategoryService.write AssetCategories.update
  write_category-Stays entity_id [] h = get_record-Stays s asset_categories entity_id
  write_category-Stays entity_id (entry ∷ entries) h =
      found-Stays s
        (AssetCategories.update env s.tenant_id s.project_id entity_id (entry ∷ entries))
        (update-Keeps s.tenant_id s.project_id env asset_categories entity_id (entry ∷ entries) h)

  pub update_category-Stays :
      (entity_id : String) (name description parent_id : Option String)
      → Stays s (AssetCategoryService.update env s entity_id name description parent_id)
  unfolding AssetCategoryService.update
  update_category-Stays entity_id name description parent_id db =
      when_ok-Kept s.tenant_id s.project_id _ db (AssetCategoryService.ensure_parent s parent_id db)
        (ensure_parent-Stays parent_id db)
        (λ _.
          write_category-Stays entity_id
            (AssetCategoryService.update_data name description parent_id)
            (category_data-Unscoped name description parent_id))

  pub delete_category-Stays :
      (entity_id : String) → Stays s (AssetCategoryService.delete env s entity_id)
  unfolding AssetCategoryService.delete AssetCategories.soft_delete
  delete_category-Stays entity_id =
      deleted-Stays s entity_id (AssetCategories.soft_delete env s.tenant_id s.project_id entity_id)
        (soft_delete-Keeps s.tenant_id s.project_id env asset_categories entity_id)
