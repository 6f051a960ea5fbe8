-- ===== src/Services/LogService.antt =====
-- `class LogService` of src/app/business/services/log_service.py. An argument of
-- `list_audit_events` that is not given is "".
use python_workflow_service.Prelude.{ℕ, String, Option, List}
use python_workflow_service.Value.Dict.{Row}
use python_workflow_service.Store.{Env, Action}
use python_workflow_service.Crud.ApiCallLogs
use python_workflow_service.Crud.AuditEvents
use python_workflow_service.Crud.WebhookDeliveries
use python_workflow_service.Services.{Scope}

module _ (s : Scope) where
  unfoldable pub list_audit_events : ℕ → ℕ → String → String → String → Action (List Row × ℕ)
  list_audit_events page page_size entity entity_id source =
      AuditEvents.list s.tenant_id s.project_id page page_size entity entity_id source

  unfoldable pub list_webhook_deliveries : ℕ → ℕ → Action (List Row × ℕ)
  list_webhook_deliveries page page_size =
      WebhookDeliveries.list s.tenant_id s.project_id page page_size

  unfoldable pub list_api_call_logs : ℕ → ℕ → Option ℕ → Action (List Row × ℕ)
  list_api_call_logs page page_size limit =
      ApiCallLogs.list s.tenant_id s.project_id page page_size limit

  unfoldable pub record_api_call : Env → ApiCallLogs.Call → Action Row
  record_api_call env c = ApiCallLogs.create env s.tenant_id s.project_id c
