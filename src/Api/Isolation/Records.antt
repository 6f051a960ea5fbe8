-- ===== src/Api/Isolation/Records.antt =====
-- The routes of src/app/api/v1 to the records on which no other table depends leave the rows of other tenants
-- and projects alone.
use python_workflow_service.Prelude.{String, refl, List, ltb, length, if◌then◌else◌}
use python_workflow_service.Value.Dict.{Row}
use python_workflow_service.Store.{
  Env, Action, pure, ◌>>=◌, assets, pdf_templates, asset_categories, custom_fields, form_templates,
  unauthorized,
}
use python_workflow_service.Store.Query.{list_page, select_all}
use python_workflow_service.Store.Outside.{Unscoped, Kept-refl}
use python_workflow_service.Http.{Response, list_response, dump_all, Web}
use python_workflow_service.Crud.Assets as CrudAssets
use python_workflow_service.Crud.AssetCategories as CrudAssetCategories
use python_workflow_service.Crud.CustomFields as CrudCustomFields
use python_workflow_service.Crud.FormTemplates as CrudFormTemplates
use python_workflow_service.Crud.ApiKeys as CrudApiKeys
use python_workflow_service.Services.{Scope, get_record}
use python_workflow_service.Services.AssetService
use python_workflow_service.Services.AssetCategoryService
use python_workflow_service.Services.CustomFieldService
use python_workflow_service.Services.FormTemplateService
use python_workflow_service.Services.ApiKeyService
use python_workflow_service.Services.ApiKeyService.{ApiKeyScope, lacks_scope}
use python_workflow_service.Services.Isolation.{
  Stays, bind-Stays, raise-Stays, get_record-Stays, decided-Stays, found-Stays,
}
use python_workflow_service.Services.Isolation.Records.{
  create_asset-Stays, update_asset-Stays, delete_asset-Stays, create_category-Stays,
  update_category-Stays, delete_category-Stays,
}
use python_workflow_service.Services.Isolation.Settings.{
  create_custom_field-Stays, update_custom_field-Stays, delete_custom_field-Stays,
  create_form_template-Stays, update_form_template-Stays, delete_form_template-Stays,
  revoke_api_key-Stays,
}
use python_workflow_service.Api.Assets
use python_workflow_service.Api.AssetCategories
use python_workflow_service.Api.CustomFields
use python_workflow_service.Api.FormTemplates
use python_workflow_service.Api.ApiKeys
use python_workflow_service.Api.Isolation.Replies.{
  replied-Stays, removed-Stays, paged-Stays, dump_all-Stays,
}
use python_workflow_service.Crud.PdfTemplates as CrudPdfTemplates
use python_workflow_service.Crud.AuditEvents as CrudAuditEvents
use python_workflow_service.Crud.WebhookDeliveries as CrudWebhookDeliveries
use python_workflow_service.Crud.ApiCallLogs as CrudApiCallLogs
use python_workflow_service.Services.PdfTemplateService
use python_workflow_service.Services.LogService
use python_workflow_service.Api.PdfTemplates
use python_workflow_service.Api.Logs
use python_workflow_service.Services.Isolation.Printing.{
  create_pdf_template-Stays, update_pdf_template-Stays, delete_pdf_template-Stays,
}

module _ (w : Web) (language : String) (s : Scope) (env : Env) where
  pub assets-Stays :
      (r : Assets.Request)
      → Unscoped (Assets.body_of r)
      → Stays s (Assets.handle w env language s r)
  unfolding Assets.handle Assets.list_assets Assets.get_asset Assets.create_asset
      Assets.update_asset Assets.delete_asset AssetService.page_of CrudAssets.list list_page
      Assets.body_of
  assets-Stays (Assets.list page page_size filters) h =
      paged-Stays w language s (AssetService.page_of env s page page_size filters) "AssetResponse"
        page page_size (λ db. Kept-refl s.tenant_id s.project_id db db refl)
  assets-Stays (Assets.retrieve entity_id) h =
      replied-Stays w language s (get_record assets s entity_id) "AssetResponse" _ _ _
        (get_record-Stays s assets entity_id)
  assets-Stays (Assets.create body) h =
      replied-Stays w language s (AssetService.create env s body) "AssetResponse" _ _ _
        (create_asset-Stays env s body h)
  assets-Stays (Assets.update entity_id body) h =
      replied-Stays w language s (AssetService.update env s entity_id body) "AssetResponse" _ _ _
        (update_asset-Stays env s entity_id body h)
  assets-Stays (Assets.delete entity_id) h =
      removed-Stays w language s (AssetService.delete env s entity_id) "DeleteIdResponse"
        (delete_asset-Stays env s entity_id)

  pub asset_categories-Stays :
      (r : AssetCategories.Request) → Stays s (AssetCategories.handle w env language s r)
  unfolding AssetCategories.handle AssetCategories.list_asset_categories
      AssetCategories.get_asset_category AssetCategories.create_asset_category
      AssetCategories.update_asset_category AssetCategories.delete_asset_category
      AssetCategoryService.page_of CrudAssetCategories.list list_page
  asset_categories-Stays (AssetCategories.list page page_size term) =
      paged-Stays w language s (AssetCategoryService.page_of env s page page_size term)
        "AssetCategoryResponse" page page_size (λ db. Kept-refl s.tenant_id s.project_id db db refl)
  asset_categories-Stays (AssetCategories.retrieve entity_id) =
      replied-Stays w language s (get_record asset_categories s entity_id) "AssetCategoryResponse" _
        _ _ (get_record-Stays s asset_categories entity_id)
  asset_categories-Stays (AssetCategories.create name description parent_id) =
      replied-Stays w language s (AssetCategoryService.create env s name description parent_id)
        "AssetCategoryResponse" _ _ _ (create_category-Stays env s name description parent_id)
  asset_categories-Stays (AssetCategories.update entity_id name description parent_id) =
      replied-Stays w language s
        (AssetCategoryService.update env s entity_id name description parent_id)
        "AssetCategoryResponse" _ _ _
        (update_category-Stays env s entity_id name description parent_id)
  asset_categories-Stays (AssetCategories.delete entity_id) =
      removed-Stays w language s (AssetCategoryService.delete env s entity_id) "DeleteIdResponse"
        (delete_category-Stays env s entity_id)

  pub custom_fields-Stays :
      (r : CustomFields.Request)
      → Unscoped (CustomFields.body_of r)
      → Stays s (CustomFields.handle w env language s r)
  unfolding CustomFields.handle CustomFields.list_custom_fields CustomFields.get_custom_field
      CustomFields.create_custom_field CustomFields.update_custom_field
      CustomFields.delete_custom_field CustomFieldService.page_of CrudCustomFields.list list_page
      CustomFields.body_of
  custom_fields-Stays (CustomFields.list page page_size term scope category_id) h =
      paged-Stays w language s
        (CustomFieldService.page_of env s page page_size term scope category_id)
        "CustomFieldResponse" page page_size (λ db. Kept-refl s.tenant_id s.project_id db db refl)
  custom_fields-Stays (CustomFields.retrieve entity_id) h =
      replied-Stays w language s (get_record custom_fields s entity_id) "CustomFieldResponse" _ _ _
        (get_record-Stays s custom_fields entity_id)
  custom_fields-Stays (CustomFields.create body) h =
      replied-Stays w language s (CustomFieldService.create env s body) "CustomFieldResponse" _ _ _
        (create_custom_field-Stays env s body h)
  custom_fields-Stays (CustomFields.update entity_id body) h =
      replied-Stays w language s (CustomFieldService.update env s entity_id body)
        "CustomFieldResponse" _ _ _ (update_custom_field-Stays env s entity_id body h)
  custom_fields-Stays (CustomFields.delete entity_id) h =
      removed-Stays w language s (CustomFieldService.delete env s entity_id)
        "DeleteCustomFieldResponse" (delete_custom_field-Stays env s entity_id)

  pub form_templates-Stays :
      (r : FormTemplates.Request) → Stays s (FormTemplates.handle w env language s r)
  unfolding FormTemplates.handle FormTemplates.list_form_templates FormTemplates.get_form_template
      FormTemplates.create_form_template FormTemplates.update_form_template
      FormTemplates.delete_form_template FormTemplateService.page_of CrudFormTemplates.list
      list_page
  form_templates-Stays (FormTemplates.list page page_size term) =
      paged-Stays w language s (FormTemplateService.page_of env s page page_size term)
        "FormTemplateResponse" page page_size (λ db. Kept-refl s.tenant_id s.project_id db db refl)
  form_templates-Stays (FormTemplates.retrieve entity_id) =
      replied-Stays w language s (get_record form_templates s entity_id) "FormTemplateResponse" _ _
        _ (get_record-Stays s form_templates entity_id)
  form_templates-Stays (FormTemplates.create name description schema) =
      replied-Stays w language s (FormTemplateService.create env s name description schema)
        "FormTemplateResponse" _ _ _ (create_form_template-Stays env s name description schema)
  form_templates-Stays (FormTemplates.update entity_id name description schema) =
      replied-Stays w language s
        (FormTemplateService.update env s entity_id name description schema) "FormTemplateResponse"
        _ _ _ (update_form_template-Stays env s entity_id name description schema)
  form_templates-Stays (FormTemplates.delete entity_id) =
      removed-Stays w language s (FormTemplateService.delete env s entity_id) "DeleteIdResponse"
        (delete_form_template-Stays env s entity_id)

  all_pdf_templates-Stays : Stays s (PdfTemplateService.list s)
  unfolding PdfTemplateService.list CrudPdfTemplates.list select_all
  all_pdf_templates-Stays db = Kept-refl s.tenant_id s.project_id db db refl

  -- The answer with all templates on one page.
  abbrev one_page : List Row → Action Response
  one_page payload = pure (
      list_response w language payload (length payload) 1
        (if ltb (length payload) 1 then 1 else length payload))

  whole_list-Stays : Stays s (PdfTemplates.list_pdf_templates w env language s)
  unfolding PdfTemplates.list_pdf_templates
  whole_list-Stays =
      bind-Stays s (PdfTemplateService.list s)
        (λ items. dump_all w "PdfTemplateResponse" items >>= one_page) all_pdf_templates-Stays
        (λ items.
          bind-Stays s (dump_all w "PdfTemplateResponse" items) one_page
            (dump_all-Stays w language s "PdfTemplateResponse" items)
            (λ payload db. Kept-refl s.tenant_id s.project_id db db refl))

  pub pdf_templates-Stays :
      (r : PdfTemplates.Request)
      → Unscoped (PdfTemplates.body_of r)
      → Stays s (PdfTemplates.handle w env language s r)
  unfolding PdfTemplates.handle PdfTemplates.list_pdf_templates PdfTemplates.get_pdf_template
      PdfTemplates.create_pdf_template PdfTemplates.update_pdf_template
      PdfTemplates.delete_pdf_template PdfTemplates.body_of
  pdf_templates-Stays PdfTemplates.list h = whole_list-Stays
  pdf_templates-Stays (PdfTemplates.retrieve entity_id) h =
      replied-Stays w language s (get_record pdf_templates s entity_id) "PdfTemplateResponse" _ _ _
        (get_record-Stays s pdf_templates entity_id)
  pdf_templates-Stays (PdfTemplates.create body) h =
      replied-Stays w language s (PdfTemplateService.create env s body) "PdfTemplateResponse" _ _ _
        (create_pdf_template-Stays env s body h)
  pdf_templates-Stays (PdfTemplates.update entity_id body) h =
      replied-Stays w language s (PdfTemplateService.update env s entity_id body)
        "PdfTemplateResponse" _ _ _ (update_pdf_template-Stays env s entity_id body h)
  pdf_templates-Stays (PdfTemplates.delete entity_id) h =
      removed-Stays w language s (PdfTemplateService.delete env s entity_id) "DeleteIdResponse"
        (delete_pdf_template-Stays env s entity_id)

  pub api_keys-Stays : (r : ApiKeys.Request) → Stays s (ApiKeys.handle w env language s r)
  unfolding ApiKeys.handle ApiKeys.get_project_api_key ApiKeys.revoke_api_key
      ApiKeyService.get_project_api_key CrudApiKeys.get_public_by_tenant_project
  api_keys-Stays ApiKeys.retrieve =
      replied-Stays w language s (ApiKeyService.get_project_api_key s) "ApiKeyResponse" _ _ _ (
        decided-Stays s (lacks_scope s) _ _
          (raise-Stays s Row (unauthorized "api_keys.errors.missing_or_invalid"))
          (found-Stays s (CrudApiKeys.get_public_by_tenant_project s.tenant_id s.project_id)
            (λ db. Kept-refl s.tenant_id s.project_id db db refl)))
  api_keys-Stays (ApiKeys.revoke key_id) =
      removed-Stays w language s (ApiKeyService.revoke_api_key env s key_id) "DeleteIdResponse"
        (revoke_api_key-Stays env s key_id)

  pub logs-Stays : (r : Logs.Request) → Stays s (Logs.handle w language s r)
  unfolding Logs.handle Logs.list_audit_events Logs.list_webhook_deliveries Logs.list_api_call_logs
      LogService.list_audit_events LogService.list_webhook_deliveries LogService.list_api_call_logs
      CrudAuditEvents.list CrudWebhookDeliveries.list CrudApiCallLogs.list list_page
  logs-Stays (Logs.audit_events page page_size entity entity_id source) =
      paged-Stays w language s
        (LogService.list_audit_events s page page_size entity entity_id source) "AuditEventResponse"
        page page_size (λ db. Kept-refl s.tenant_id s.project_id db db refl)
  logs-Stays (Logs.webhook_deliveries page page_size) =
      paged-Stays w language s (LogService.list_webhook_deliveries s page page_size)
        "WebhookDeliveryResponse" page page_size
        (λ db. Kept-refl s.tenant_id s.project_id db db refl)
  logs-Stays (Logs.api_call_logs page page_size limit) =
      paged-Stays w language s (LogService.list_api_call_logs s page page_size limit)
        "ApiCallLogResponse" page page_size (λ db. Kept-refl s.tenant_id s.project_id db db refl)
