-- ===== src/Services/CustomFieldService.antt =====
-- `class CustomFieldService` of src/app/business/services/custom_field_service.py.
use python_workflow_service.Prelude.{
  ℕ, String, Bool, true, false, not, ◌&&◌, ◌||◌, List, [], ◌∷◌, str_eq, if◌then◌else◌,
}
use python_workflow_service.Value.{Value, str, obj, end, is_none, is_text, truthy}
use python_workflow_service.Value.Dict.{Row, get, set_default}
use python_workflow_service.Store.{
  Env, Action, custom_fields, asset_categories, validation, pure, raise, or_raise, ◌>>=◌, ◌>>◌,
}
use python_workflow_service.Prelude.Text.{strip}
use python_workflow_service.Crud.CustomFields
use python_workflow_service.Services.{Scope, missing_record, get_record, ensure_if_given}

-- `value.strip()` where it is a text.
abbrev clean : String → Value → Value
clean key (str s) =
    if str_eq key "field_name" || str_eq key "field_key" then str (strip s) else str s
clean key v = v

-- The loop of `_prepare_payload`.
unfoldable pub cleaned_fields : Bool → Row → Row
cleaned_fields partial [] = []
cleaned_fields partial ((key, value) ∷ data') =
    let rest = cleaned_fields partial data' in
    if is_none value && partial then rest else (key, clean key value) ∷ rest

unfoldable pub prepare_payload : Bool → Row → Row
prepare_payload partial data' =
    if partial
    then cleaned_fields partial data'
    else set_default "type_config" (obj end) (cleaned_fields partial data')

unfoldable pub validate_scope : Scope → Row → Action (Unit {0})
validate_scope s payload =
    if is_text (get payload "scope") "category" && not (truthy (get payload "category_id"))
    then raise (validation "errors.validation_failed")
    else ensure_if_given asset_categories s (get payload "category_id")

-- `list`.
unfoldable pub page_of : Env → Scope → ℕ → ℕ → String → String → String → Action (List Row × ℕ)
page_of env s page page_size term scope category_id =
    CustomFields.list env s.tenant_id s.project_id page page_size term scope category_id

module _ (env : Env) (s : Scope) where
  unfoldable pub create : Row → Action Row
  create data' =
      validate_scope s (prepare_payload false data')
      >> CustomFields.create env s.tenant_id s.project_id (prepare_payload false data')

  unfoldable pub write : String → Row → Action Row
  write entity_id [] = get_record custom_fields s entity_id
  write entity_id (entry ∷ entries) = do
    validate_scope s (entry ∷ entries)
    updated ← CustomFields.update env s.tenant_id s.project_id entity_id (entry ∷ entries)
    or_raise updated missing_record

  unfoldable pub update : String → Row → Action Row
  update entity_id data' = write entity_id (prepare_payload true data')

  unfoldable pub delete : String → Action String
  delete entity_id = do
    deleted ← CustomFields.soft_delete env s.tenant_id s.project_id entity_id
    (if deleted then pure entity_id else raise missing_record)
