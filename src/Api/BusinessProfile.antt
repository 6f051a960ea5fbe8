-- ===== src/Api/BusinessProfile.antt =====
-- src/app/api/v1/business_profile.py.
use python_workflow_service.Prelude.{String}
use python_workflow_service.Value.Dict.{Row}
use python_workflow_service.Store.{Env, Action, ◌>>=◌}
use python_workflow_service.Http.{Web, Response}
use python_workflow_service.Services.{Scope}
use python_workflow_service.Services.BusinessProfileService
use python_workflow_service.Api.Reply.{retrieved, updated, Answers, when_ok-Succeeds, once-Answers}

pub data Request : Type 0 where
  retrieve : Request
  upsert : Row → Request

module _ (w : Web) (env : Env) (language : String) (s : Scope) where
  unfoldable pub get_business_profile : Action Response
  get_business_profile = do
    record' ← BusinessProfileService.fetch env s
    retrieved w language "BusinessProfileResponse" record'

  unfoldable pub upsert_business_profile : Row → Action Response
  upsert_business_profile body = do
    record' ← BusinessProfileService.upsert env s body
    updated w language "BusinessProfileResponse" record'

  unfoldable pub handle : Request → Action Response
  handle retrieve = get_business_profile
  handle (upsert body) = upsert_business_profile body

  pub handle-Answers : (r : Request) → Answers (handle r)
  unfolding handle get_business_profile upsert_business_profile
  handle-Answers retrieve db = when_ok-Succeeds _ _ (λ row. once-Answers w language _ _ _ row)
  handle-Answers (upsert body) db = when_ok-Succeeds _ _ (λ row. once-Answers w language _ _ _ row)
