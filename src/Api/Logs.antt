-- ===== src/Api/Logs.antt =====
-- src/app/api/v1/logs.py.
use python_workflow_service.Prelude.{ℕ, String, Option}
use python_workflow_service.Store.{Action, ◌>>=◌}
use python_workflow_service.Http.{Web, Response}
use python_workflow_service.Services.{Scope}
use python_workflow_service.Services.LogService
use python_workflow_service.Api.Reply.{listed, Answers, when_ok-Succeeds, listed-Answers}

pub data Request : Type 0 where
  audit_events : ℕ → ℕ → String → String → String → Request
  webhook_deliveries : ℕ → ℕ → Request
  api_call_logs : ℕ → ℕ → Option ℕ → Request

module _ (w : Web) (language : String) (s : Scope) where
  unfoldable pub list_audit_events : ℕ → ℕ → String → String → String → Action Response
  unfolding listed
  list_audit_events page page_size entity entity_id source = do
    found ← LogService.list_audit_events s page page_size entity entity_id source
    listed w language "AuditEventResponse" page page_size found

  unfoldable pub list_webhook_deliveries : ℕ → ℕ → Action Response
  unfolding listed
  list_webhook_deliveries page page_size = do
    found ← LogService.list_webhook_deliveries s page page_size
    listed w language "WebhookDeliveryResponse" page page_size found

  unfoldable pub list_api_call_logs : ℕ → ℕ → Option ℕ → Action Response
  unfolding listed
  list_api_call_logs page page_size limit = do
    found ← LogService.list_api_call_logs s page page_size limit
    listed w language "ApiCallLogResponse" page page_size found

  unfoldable pub handle : Request → Action Response
  handle (audit_events page page_size entity entity_id source) =
      list_audit_events page page_size entity entity_id source
  handle (webhook_deliveries page page_size) = list_webhook_deliveries page page_size
  handle (api_call_logs page page_size limit) = list_api_call_logs page page_size limit

  pub handle-Answers : (r : Request) → Answers (handle r)
  unfolding handle list_audit_events list_webhook_deliveries list_api_call_logs
  handle-Answers (audit_events page page_size entity entity_id source) db =
      when_ok-Succeeds _ _ (λ found. listed-Answers w language _ page page_size found)
  handle-Answers (webhook_deliveries page page_size) db =
      when_ok-Succeeds _ _ (λ found. listed-Answers w language _ page page_size found)
  handle-Answers (api_call_logs page page_size limit) db =
      when_ok-Succeeds _ _ (λ found. listed-Answers w language _ page page_size found)
