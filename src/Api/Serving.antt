-- ===== src/Api/Serving.antt =====
-- A request from the router to the answer: the dependencies of src/app/core/security, the route, the
-- session of `async_get_db`, which they share, and the handlers of the exceptions. The matching of
-- paths and methods is FastAPI's: a request names its route.
pub mod Atomicity
use python_workflow_service.Prelude.{ℕ, String}
use python_workflow_service.Value.{py_str}
use python_workflow_service.Store.{Db, Env, Action, Result, ok, err}
use python_workflow_service.Http.{Web, Response}
use python_workflow_service.Http.Errors.{handle_exception}
use python_workflow_service.Http.Session.{Session, Ended, async_get_db_session}
use python_workflow_service.Webhooks.{Net, Traffic}
use python_workflow_service.Webhooks.Worker.{World}
use python_workflow_service.Services.{Scope}
use python_workflow_service.Services.ApiKeyService.{ApiKeyScope}
use python_workflow_service.Services.Security.{Headers, get_api_key_scope}
use python_workflow_service.Services.TriggerService.{in_world}
use python_workflow_service.Api.Contracts
use python_workflow_service.Api.WorkOrders
use python_workflow_service.Api.Invoices
use python_workflow_service.Api.Payments
use python_workflow_service.Api.Assets
use python_workflow_service.Api.AssetCategories
use python_workflow_service.Api.CustomFields
use python_workflow_service.Api.FormTemplates
use python_workflow_service.Api.PdfTemplates
use python_workflow_service.Api.BusinessProfile
use python_workflow_service.Api.Logs
use python_workflow_service.Api.ApiKeys
use python_workflow_service.Api.Triggers
use python_workflow_service.Api.VendorPortal
use python_workflow_service.Api.Scheduling

-- The routes behind `get_api_key_scope`.
pub data Staff : Type 0 where
  to_contracts : Contracts.Request → Staff
  to_work_orders : WorkOrders.Request → Staff
  to_invoices : Invoices.Request → Staff
  to_payments : Payments.Request → Staff
  to_assets : Assets.Request → Staff
  to_asset_categories : AssetCategories.Request → Staff
  to_custom_fields : CustomFields.Request → Staff
  to_form_templates : FormTemplates.Request → Staff
  to_pdf_templates : PdfTemplates.Request → Staff
  to_business_profile : BusinessProfile.Request → Staff
  to_logs : Logs.Request → Staff
  to_api_keys : ApiKeys.Request → Staff
  to_triggers : Triggers.Request → Staff

pub data Call : Type 0 where
  staff : Headers → Staff → Call
  create_api_key : Headers → String → String → String → Call
  vendor : String → VendorPortal.Request → Call
  run_scheduler : Headers → Call

-- The libraries, the internal token of the settings, the duration of a test POST and the language
-- that the request asks for.
pub record Server : Type 0 where
  pub web : Web
  pub net : Net
  pub env : Env
  pub internal : String
  pub duration_ms : ℕ
  pub language : String

abbrev pub service_scope : ApiKeyScope → Scope
service_scope k = record { tenant_id = py_str k.tenant_id; project_id = py_str k.project_id }

-- A step of the database alone.
abbrev pub of_db : Action Response → World → Result Response × World
of_db act world = in_world act world.traffic world.db

module _ (v : Server) where
  unfoldable pub handle_staff : ApiKeyScope → Staff → World → Result Response × World
  handle_staff k (to_contracts r) =
      of_db (Contracts.handle v.web v.env v.language (service_scope k) r)
  handle_staff k (to_work_orders r) =
      of_db (WorkOrders.handle v.web v.env v.language (service_scope k) r)
  handle_staff k (to_invoices r) =
      of_db (Invoices.handle v.web v.env v.language (service_scope k) r)
  handle_staff k (to_payments r) =
      of_db (Payments.handle v.web v.env v.language (service_scope k) r)
  handle_staff k (to_assets r) = of_db (Assets.handle v.web v.env v.language (service_scope k) r)
  handle_staff k (to_asset_categories r) =
      of_db (AssetCategories.handle v.web v.env v.language (service_scope k) r)
  handle_staff k (to_custom_fields r) =
      of_db (CustomFields.handle v.web v.env v.language (service_scope k) r)
  handle_staff k (to_form_templates r) =
      of_db (FormTemplates.handle v.web v.env v.language (service_scope k) r)
  handle_staff k (to_pdf_templates r) =
      of_db (PdfTemplates.handle v.web v.env v.language (service_scope k) r)
  handle_staff k (to_business_profile r) =
      of_db (BusinessProfile.handle v.web v.env v.language (service_scope k) r)
  handle_staff k (to_logs r) = of_db (Logs.handle v.web v.language (service_scope k) r)
  handle_staff k (to_api_keys r) = of_db (ApiKeys.handle v.web v.env v.language (service_scope k) r)
  handle_staff k (to_triggers r) =
      Triggers.handle v.web v.net v.env v.language (service_scope k) v.duration_ms k r

  -- The route, once its dependency has returned.
  unfoldable pub admitted : Staff → Traffic → Result ApiKeyScope × Db → Result Response × World
  unfolding handle_staff
  admitted r traffic (ok k, db) = handle_staff k r (record { db = db; traffic = traffic })
  admitted r traffic (err e, db) = (err e, record { db = db; traffic = traffic })

  unfoldable pub act : Call → World → Result Response × World
  unfolding admitted
  act (staff headers r) world = admitted r world.traffic (get_api_key_scope v.env headers world.db)
  act (create_api_key headers tenant_id project_id name) world =
      of_db
        (ApiKeys.create_api_key v.web v.env v.language v.internal headers tenant_id project_id name)
        world
  act (vendor vendor_token r) world =
      of_db (VendorPortal.with_token v.web v.env v.language vendor_token r) world
  act (run_scheduler headers) world =
      of_db (Scheduling.run_scheduler v.web v.env v.language v.internal headers) world

  unfoldable pub answer : Result Response → Response
  answer (ok response) = response
  answer (err e) = handle_exception v.web v.language e

  -- The session of a request, whose callbacks would act on the traffic; no route schedules one.
  unfoldable pub serve : Call → World → Response × World
  unfolding async_get_db_session answer
  serve c world =
      let ran = act c world in
      let ended : Ended Response Traffic =
        async_get_db_session (λ s. (ran.0, record s { db = ran.1.db })) world.db ran.1.traffic in
      (answer ended.result, record { db = ended.committed; traffic = ended.world })
