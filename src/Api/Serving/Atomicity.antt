-- ===== src/Api/Serving/Atomicity.antt =====
-- What an answer says of the database: the session of src/app/core/db/postgres/database.py around the routes
-- of src/app/api/v1.
use python_workflow_service.Prelude.{◌≤◌, ◌<◌, ◌≡◌, refl, ◌⊎◌, inl, inr}
use python_workflow_service.Store.{Db, Table, Result, ok, err, Error}
use python_workflow_service.Http.{Response}
use python_workflow_service.Http.Errors.{handle_exception, handle_exception-status}
use python_workflow_service.Http.Session.{async_get_db_session, end_session, after_commit, rollback}
use python_workflow_service.Services.ApiKeyService.{ApiKeyScope}
use python_workflow_service.Webhooks.{Traffic}
use python_workflow_service.Webhooks.Worker.{World}
use python_workflow_service.Api.Reply.{Succeeds}
use python_workflow_service.Api.Contracts
use python_workflow_service.Api.WorkOrders
use python_workflow_service.Api.Invoices
use python_workflow_service.Api.Payments
use python_workflow_service.Api.Assets
use python_workflow_service.Api.AssetCategories
use python_workflow_service.Api.CustomFields
use python_workflow_service.Api.FormTemplates
use python_workflow_service.Api.PdfTemplates
use python_workflow_service.Api.BusinessProfile
use python_workflow_service.Api.Logs
use python_workflow_service.Api.ApiKeys
use python_workflow_service.Api.Triggers
use python_workflow_service.Api.VendorPortal
use python_workflow_service.Api.Scheduling
use python_workflow_service.Api.Serving.{
  Server, Staff, Call, to_contracts, to_work_orders, to_invoices, to_payments, to_assets,
  to_asset_categories, to_custom_fields, to_form_templates, to_pdf_templates, to_business_profile,
  to_logs, to_api_keys, to_triggers, staff, create_api_key, vendor, run_scheduler, service_scope,
  handle_staff, admitted, act, answer, serve,
}

-- A request has succeeded, and what its handler wrote is committed, or it has failed with an
-- exception, and the tables are as they were before; the status of the answer tells which.
module _ (v : Server) where
  abbrev pub Outcome : Call → World → Type 0
  Outcome c world =
      ((response : Response) × ((act v c world).0 ≡ ok response)
        × ((serve v c world).0 ≡ response)
        × (response.status_code < 300)
        × ((serve v c world).1.db ≡ (act v c world).1.db))
      ⊎ ((e : Error) × ((act v c world).0 ≡ err e)
          × ((serve v c world).0 ≡ handle_exception v.web v.language e)
          × (400 ≤ (serve v c world).0.status_code)
          × ((t : Table) → (serve v c world).1.db.rows t ≡ world.db.rows t))

  handle_staff-Succeeds :
      (k : ApiKeyScope) (r : Staff) (world : World) → Succeeds (handle_staff v k r world).0
  unfolding handle_staff
  handle_staff-Succeeds k (to_contracts r) world =
      Contracts.handle-Answers v.web v.env v.language (service_scope k) r world.db
  handle_staff-Succeeds k (to_work_orders r) world =
      WorkOrders.handle-Answers v.web v.env v.language (service_scope k) r world.db
  handle_staff-Succeeds k (to_invoices r) world =
      Invoices.handle-Answers v.web v.env v.language (service_scope k) r world.db
  handle_staff-Succeeds k (to_payments r) world =
      Payments.handle-Answers v.web v.env v.language (service_scope k) r world.db
  handle_staff-Succeeds k (to_assets r) world =
      Assets.handle-Answers v.web v.env v.language (service_scope k) r world.db
  handle_staff-Succeeds k (to_asset_categories r) world =
      AssetCategories.handle-Answers v.web v.env v.language (service_scope k) r world.db
  handle_staff-Succeeds k (to_custom_fields r) world =
      CustomFields.handle-Answers v.web v.env v.language (service_scope k) r world.db
  handle_staff-Succeeds k (to_form_templates r) world =
      FormTemplates.handle-Answers v.web v.env v.language (service_scope k) r world.db
  handle_staff-Succeeds k (to_pdf_templates r) world =
      PdfTemplates.handle-Answers v.web v.env v.language (service_scope k) r world.db
  handle_staff-Succeeds k (to_business_profile r) world =
      BusinessProfile.handle-Answers v.web v.env v.language (service_scope k) r world.db
  handle_staff-Succeeds k (to_logs r) world =
      Logs.handle-Answers v.web v.language (service_scope k) r world.db
  handle_staff-Succeeds k (to_api_keys r) world =
      ApiKeys.handle-Answers v.web v.env v.language (service_scope k) r world.db
  handle_staff-Succeeds k (to_triggers r) world =
      Triggers.handle-Succeeds v.web v.net v.env v.language (service_scope k) v.duration_ms k r
        world

  admitted-Succeeds :
      (r : Staff) (traffic : Traffic) (scope : Result ApiKeyScope × Db)
      → Succeeds (admitted v r traffic scope).0
  unfolding admitted
  admitted-Succeeds r traffic (ok k, db) = handle_staff-Succeeds k r _
  admitted-Succeeds r traffic (err e, db) = tt

  act-Succeeds : (c : Call) (world : World) → Succeeds (act v c world).0
  unfolding act
  act-Succeeds (staff headers r) world = admitted-Succeeds r world.traffic _
  act-Succeeds (create_api_key headers tenant_id project_id name) world =
      ApiKeys.create_api_key-Answers v.web v.env v.language v.internal headers tenant_id project_id
        name world.db
  act-Succeeds (vendor vendor_token r) world =
      VendorPortal.with_token-Answers v.web v.env v.language vendor_token r world.db
  act-Succeeds (run_scheduler headers) world =
      Scheduling.run_scheduler-Answers v.web v.env v.language v.internal headers world.db

  answered :
      (c : Call) (world : World) (ran : Result Response × World)
      → act v c world ≡ ran
      → Succeeds ran.0
      → Outcome c world
  unfolding serve async_get_db_session end_session after_commit rollback answer
  answered c world (ok response, after) same h =
      inl (response, rw same refl, rw same refl, h, rw same refl)
  answered c world (err e, after) same h = inr (
    e,
    rw same refl,
    rw same refl,
    rw same (handle_exception-status v.web v.language e),
    λ t. rw same refl,
  )

  -- Where a request fails, no row of any table has changed; where it succeeds, the rows are those that
  -- its route wrote. The status of the answer, below 300 or at least 400, tells which.
  pub serve-Outcome : (c : Call) (world : World) → Outcome c world
  serve-Outcome c world = answered c world (act v c world) refl (act-Succeeds c world)
