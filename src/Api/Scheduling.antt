-- ===== src/Api/Scheduling.antt =====
-- src/app/api/v1/scheduler.py.
use python_workflow_service.Prelude.{String, Option, none, some, [], ◌∷◌, pos}
use python_workflow_service.Value.{num, py_str}
use python_workflow_service.Value.Dict.{Row}
use python_workflow_service.Store.{Env, Action, ◌>>=◌}
use python_workflow_service.Http.{Web, Response}
use python_workflow_service.Scheduler.{run_once}
use python_workflow_service.Scheduler.Data.{Counts}
use python_workflow_service.Services.ApiKeyService.{ApiKeyScope}
use python_workflow_service.Services.Security.{Headers, get_scheduler_auth}
use python_workflow_service.Api.Reply.{updated, Answers, when_ok-Succeeds, once-Answers}

-- The dict of `run_once`.
unfoldable pub run_result : Option Counts → Row
run_result none =
    ("created", num (pos 0))
    ∷ ("cancelled", num (pos 0))
    ∷ ("skipped", num (pos 0))
    ∷ ("locked", num (pos 1))
    ∷ []
run_result (some c) =
    ("created", num (pos c.created))
    ∷ ("cancelled", num (pos c.cancelled))
    ∷ ("skipped", num (pos c.skipped))
    ∷ []

abbrev pub tenant_of : Option ApiKeyScope → Option String
tenant_of none = none
tenant_of (some scope) = some (py_str scope.tenant_id)

unfoldable pub run_scheduler : Web → Env → String → String → Headers → Action Response
unfolding run_result
run_scheduler w env language internal headers = do
  scope ← get_scheduler_auth env internal headers
  result ← run_once env (tenant_of scope)
  updated w language "SchedulerRunResult" (run_result result)

pub run_scheduler-Answers :
    (w : Web) (env : Env) (language internal : String) (headers : Headers)
    → Answers (run_scheduler w env language internal headers)
unfolding run_scheduler
run_scheduler-Answers w env language internal headers db = when_ok-Succeeds _ _ (λ scope db'.
    when_ok-Succeeds (run_once env (tenant_of scope) db') _
      (λ result. once-Answers w language _ _ _ _))
