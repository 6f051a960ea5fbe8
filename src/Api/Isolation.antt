-- ===== src/Api/Isolation.antt =====
-- What the routes of src/app/api/v1 do to the rows of other tenants and projects.
pub mod Replies
pub mod Records
pub mod Billing
use python_workflow_service.Prelude.{
  Bool, arith, String, ◌≡◌, refl, false, true, ℕ, List, [], ◌∷◌, Option, Bool-cases, inl, inr,
}
use python_workflow_service.Prelude.Text.{is_empty}
use python_workflow_service.Value.{py_str}
use python_workflow_service.Value.Dict.{Row}
use python_workflow_service.Store.{
  Db, Env, Table, Action, Error, assets, payments, pdf_templates, asset_categories, custom_fields,
  form_templates, invoices, pure, raise, gets, unauthorized, model_error, or_raise, ◌>>=◌,
}
use python_workflow_service.Store.Query.{list_page, select_all}
use python_workflow_service.Store.Outside.{Unscoped, Kept, Kept-refl, or_raise-Keeps}
use python_workflow_service.Http.{
  Web, Response, Validated, valid, invalid, dump, dump_all, success_response,
}
use python_workflow_service.Webhooks.Worker.{World}
use python_workflow_service.Services.{Scope, missing_record, get_record}
use python_workflow_service.Services.ApiKeyService.{ApiKeyScope, lacks_scope}
use python_workflow_service.Services.Isolation.{
  Stays, bind-Stays, same-Stays, raise-Stays, get_record-Stays, decided-Stays, found-Stays,
}
use python_workflow_service.Api.Reply.{reply, listed, deleted}
use python_workflow_service.Api.Assets
use python_workflow_service.Api.CustomFields
use python_workflow_service.Api.Invoices
use python_workflow_service.Api.Serving.{
  Staff, to_contracts, to_work_orders, to_invoices, to_payments, to_assets, to_asset_categories,
  to_custom_fields, to_form_templates, to_pdf_templates, to_business_profile, to_logs, to_api_keys,
  to_triggers, Server, service_scope, handle_staff,
}
use python_workflow_service.Api.Payments
use python_workflow_service.Api.PdfTemplates
use python_workflow_service.Api.Isolation.Records.{
  assets-Stays, asset_categories-Stays, custom_fields-Stays, form_templates-Stays,
  pdf_templates-Stays, api_keys-Stays, logs-Stays,
}
use python_workflow_service.Api.Isolation.Billing.{invoices-Stays, payments-Stays}

-- The routes to the invoices, the payments, and the records on which no other table depends.
unfoldable pub covers : Staff → Bool
covers (to_invoices r) = true
covers (to_payments r) = true
covers (to_pdf_templates r) = true
covers (to_logs r) = true
covers (to_assets r) = true
covers (to_asset_categories r) = true
covers (to_custom_fields r) = true
covers (to_form_templates r) = true
covers (to_api_keys r) = true
covers r = false

-- What a request to one of them has for a body of columns.
unfoldable pub body_of : Staff → Row
unfolding Invoices.body_of
body_of (to_invoices r) = Invoices.body_of r
body_of (to_payments r) = Payments.body_of r
body_of (to_pdf_templates r) = PdfTemplates.body_of r
body_of (to_assets r) = Assets.body_of r
body_of (to_custom_fields r) = CustomFields.body_of r
body_of r = []

-- A request to the invoices, payments, assets, asset categories, custom fields, form templates, PDF
-- templates, logs or API keys, from a caller with the scope of a named tenant and project, leaves the
-- rows of every table that belong to another tenant or project as they were and in their order, whether
-- it succeeds or fails, if its body names neither a tenant nor a project.
pub handle_staff-Kept :
    (v : Server) (k : ApiKeyScope) (r : Staff) (world : World)
    → is_empty (service_scope k).tenant_id ≡ false
    → is_empty (service_scope k).project_id ≡ false
    → covers r ≡ true
    → Unscoped (body_of r)
    → Kept
        (service_scope k).tenant_id
        (service_scope k).project_id
        world.db
        (handle_staff v k r world).1.db
unfolding handle_staff covers body_of
handle_staff-Kept v k (to_invoices r) world tenant_given project_given covered h =
    invoices-Stays v.web v.language (service_scope k) v.env tenant_given project_given r h world.db
handle_staff-Kept v k (to_assets r) world tenant_given project_given covered h =
    assets-Stays v.web v.language (service_scope k) v.env r h world.db
handle_staff-Kept v k (to_asset_categories r) world tenant_given project_given covered h =
    asset_categories-Stays v.web v.language (service_scope k) v.env r world.db
handle_staff-Kept v k (to_custom_fields r) world tenant_given project_given covered h =
    custom_fields-Stays v.web v.language (service_scope k) v.env r h world.db
handle_staff-Kept v k (to_form_templates r) world tenant_given project_given covered h =
    form_templates-Stays v.web v.language (service_scope k) v.env r world.db
handle_staff-Kept v k (to_api_keys r) world tenant_given project_given covered h =
    api_keys-Stays v.web v.language (service_scope k) v.env r world.db
handle_staff-Kept v k (to_contracts r) world tenant_given project_given covered h = ground arith
handle_staff-Kept v k (to_work_orders r) world tenant_given project_given covered h = ground arith
handle_staff-Kept v k (to_payments r) world tenant_given project_given covered h =
    payments-Stays v.web v.language (service_scope k) v.env tenant_given project_given r h world.db
handle_staff-Kept v k (to_pdf_templates r) world tenant_given project_given covered h =
    pdf_templates-Stays v.web v.language (service_scope k) v.env r h world.db
handle_staff-Kept v k (to_business_profile r) world tenant_given project_given covered h =
    ground arith
handle_staff-Kept v k (to_logs r) world tenant_given project_given covered h =
    logs-Stays v.web v.language (service_scope k) v.env r world.db
handle_staff-Kept v k (to_triggers r) world tenant_given project_given covered h = ground arith
