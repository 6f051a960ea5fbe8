-- ===== src/Services/Isolation/Settings.antt =====
-- The services of the custom fields, the form templates and the API keys of src/app/business/services leave
-- the rows of other tenants and projects alone.
use python_workflow_service.Prelude.{
  String, ◌≡◌, refl, Bool, true, false, Option, none, some, [], ◌∷◌, ◌&&◌, not, arith,
}
use python_workflow_service.Prelude.Text.{strip}
use python_workflow_service.Value.{Value, str, obj, end, truthy, is_text, or_default}
use python_workflow_service.Value.Dict.{Row, get, has_key}
use python_workflow_service.Models.{custom_field_defaults, form_template_defaults}
use python_workflow_service.Store.{
  Env, asset_categories, custom_fields, form_templates, api_keys, unauthorized, validation,
}
use python_workflow_service.Store.Outside.{
  Unscoped, when_ok-Kept, update-Keeps, soft_delete-Keeps, create-Keeps, set_default-absent,
}
use python_workflow_service.Crud.CustomFields
use python_workflow_service.Crud.FormTemplates
use python_workflow_service.Crud.ApiKeys
use python_workflow_service.Services.{Scope}
use python_workflow_service.Services.CustomFieldService
use python_workflow_service.Services.FormTemplateService
use python_workflow_service.Services.ApiKeyService.{revoke_api_key, lacks_scope}
use python_workflow_service.Services.Isolation.{
  Stays, get_record-Stays, ensure_if_given-Stays, decided-Stays, raise-Stays, deleted-Stays,
  found-Stays,
}

module _ (k : String) where
  custom-absent :
      (partial : Bool) (d : Row)
      → has_key d k ≡ false
      → has_key (CustomFieldService.cleaned_fields partial d) k ≡ false
  unfolding CustomFieldService.cleaned_fields has_key
  custom-absent partial [] h = refl
  custom-absent partial ((j, v) ∷ d) h = ground (arith, custom-absent partial d)

custom-Unscoped :
    (partial : Bool) (d : Row)
    → Unscoped d
    → Unscoped (CustomFieldService.prepare_payload partial d)
unfolding CustomFieldService.prepare_payload
custom-Unscoped true d (h1, h2) =
    (custom-absent "tenant_id" true d h1, custom-absent "project_id" true d h2)
custom-Unscoped false d (h1, h2) = (
  set_default-absent "tenant_id" "type_config" _ _ refl (custom-absent "tenant_id" false d h1),
  set_default-absent "project_id" "type_config" _ _ refl (custom-absent "project_id" false d h2),
)

module _ (env : Env) (s : Scope) where
  -- Custom fields.
  validate_scope-Stays : (payload : Row) → Stays s (CustomFieldService.validate_scope s payload)
  unfolding CustomFieldService.validate_scope
  validate_scope-Stays payload =
      decided-Stays s
        (is_text (get payload "scope") "category" && not (truthy (get payload "category_id"))) _ _
        (raise-Stays s Unit (validation "errors.validation_failed"))
        (ensure_if_given-Stays s asset_categories (get payload "category_id"))

  pub create_custom_field-Stays :
      (data' : Row) → Unscoped data' → Stays s (CustomFieldService.create env s data')
  unfolding CustomFieldService.create CustomFields.create
  create_custom_field-Stays data' h db =
      let payload = CustomFieldService.prepare_payload false data' in
      when_ok-Kept s.tenant_id s.project_id _ db (CustomFieldService.validate_scope s payload db)
        (validate_scope-Stays payload db)
        (λ _.
          create-Keeps s.tenant_id s.project_id env custom_fields "custom_field"
            custom_field_defaults payload (custom-Unscoped false data' h))

  write_custom_field-Stays :
      (entity_id : String) (payload : Row)
      → Unscoped payload
      → Stays s (CustomFieldService.write env s entity_id payload)
  unfolding CustomFieldService.write CustomFields.update
  write_custom_field-Stays entity_id [] h db = get_record-Stays s custom_fields entity_id db
  write_custom_field-Stays entity_id (entry ∷ entries) h db =
      when_ok-Kept s.tenant_id s.project_id _ db
        (CustomFieldService.validate_scope s (entry ∷ entries) db)
        (validate_scope-Stays (entry ∷ entries) db)
        (λ _.
          found-Stays s
            (CustomFields.update env s.tenant_id s.project_id entity_id (entry ∷ entries))
            (update-Keeps s.tenant_id s.project_id env custom_fields entity_id (entry ∷ entries) h))

  pub update_custom_field-Stays :
      (entity_id : String) (data' : Row)
      → Unscoped data'
      → Stays s (CustomFieldService.update env s entity_id data')
  unfolding CustomFieldService.update
  update_custom_field-Stays entity_id data' h =
      write_custom_field-Stays entity_id (CustomFieldService.prepare_payload true data')
        (custom-Unscoped true data' h)

  pub delete_custom_field-Stays :
      (entity_id : String) → Stays s (CustomFieldService.delete env s entity_id)
  unfolding CustomFieldService.delete CustomFields.soft_delete
  delete_custom_field-Stays entity_id =
      deleted-Stays s entity_id (CustomFields.soft_delete env s.tenant_id s.project_id entity_id)
        (soft_delete-Keeps s.tenant_id s.project_id env custom_fields entity_id)

  -- Form templates.
  pub create_form_template-Stays :
      (name description : String) (schema : Value)
      → Stays s (FormTemplateService.create env s name description schema)
  unfolding FormTemplateService.create FormTemplates.create has_key
  create_form_template-Stays name description schema =
      create-Keeps s.tenant_id s.project_id env form_templates "form_template"
        form_template_defaults
        (("name", str (strip name))
          ∷ ("description", str description)
          ∷ ("schema", or_default schema (obj end))
          ∷ [])
        (refl, refl)

  template_data-Unscoped :
      (name description : Option String) (schema : Option Value)
      → Unscoped (FormTemplateService.update_data name description schema)
  unfolding FormTemplateService.update_data has_key
  template_data-Unscoped none none none = (refl, refl)
  template_data-Unscoped none none (some v) = (refl, refl)
  template_data-Unscoped none (some d) none = (refl, refl)
  template_data-Unscoped none (some d) (some v) = (refl, refl)
  template_data-Unscoped (some n) none none = (refl, refl)
  template_data-Unscoped (some n) none (some v) = (refl, refl)
  template_data-Unscoped (some n) (some d) none = (refl, refl)
  template_data-Unscoped (some n) (some d) (some v) = (refl, refl)

  write_form_template-Stays :
      (entity_id : String) (payload : Row)
      → Unscoped payload
      → Stays s (FormTemplateService.write env s entity_id payload)
  unfolding FormTemplateService.write FormTemplates.update
  write_form_template-Stays entity_id [] h = get_record-Stays s form_templates entity_id
  write_form_template-Stays entity_id (entry ∷ entries) h =
      found-Stays s (FormTemplates.update env s.tenant_id s.project_id entity_id (entry ∷ entries))
        (update-Keeps s.tenant_id s.project_id env form_templates entity_id (entry ∷ entries) h)

  pub update_form_template-Stays :
      (entity_id : String) (name description : Option String) (schema : Option Value)
      → Stays s (FormTemplateService.update env s entity_id name description schema)
  unfolding FormTemplateService.update
  update_form_template-Stays entity_id name description schema =
      write_form_template-Stays entity_id (FormTemplateService.update_data name description schema)
        (template_data-Unscoped name description schema)

  pub delete_form_template-Stays :
      (entity_id : String) → Stays s (FormTemplateService.delete env s entity_id)
  unfolding FormTemplateService.delete FormTemplates.soft_delete
  delete_form_template-Stays entity_id =
      deleted-Stays s entity_id (FormTemplates.soft_delete env s.tenant_id s.project_id entity_id)
        (soft_delete-Keeps s.tenant_id s.project_id env form_templates entity_id)

  -- API keys.
  pub revoke_api_key-Stays : (key_id : String) → Stays s (revoke_api_key env s key_id)
  unfolding revoke_api_key ApiKeys.soft_delete
  revoke_api_key-Stays key_id =
      decided-Stays s (lacks_scope s) _ _
        (raise-Stays s String (unauthorized "api_keys.errors.missing_or_invalid"))
        (deleted-Stays s key_id (ApiKeys.soft_delete env s.tenant_id s.project_id key_id)
          (soft_delete-Keeps s.tenant_id s.project_id env api_keys key_id))
