-- ===== src/Api/ApiKeys.antt =====
-- src/app/api/v1/api_keys.py; `create_api_key` is behind the internal token.
use python_workflow_service.Prelude.{String, arith}
use python_workflow_service.Store.{Env, Action, ◌>>=◌, ◌>>◌}
use python_workflow_service.Http.{Web, Response}
use python_workflow_service.Services.{Scope}
use python_workflow_service.Services.ApiKeyService
use python_workflow_service.Services.Security.{Headers, require_internal_token}
use python_workflow_service.Api.Reply.{
  retrieved, created, deleted, Answers, when_ok-Succeeds, once-Answers, reply-Answers,
}

pub data Request : Type 0 where
  retrieve : Request
  revoke : String → Request

unfoldable pub create_api_key :
    Web → Env → String → String → Headers → String → String → String → Action Response
unfolding require_internal_token
create_api_key w env language internal headers tenant_id project_id name =
    require_internal_token internal headers
    >> (ApiKeyService.create_api_key env tenant_id project_id name >>= λ record'.
        created w language "ApiKeyCreatedResponse" record')

module _ (w : Web) (env : Env) (language : String) (s : Scope) where
  unfoldable pub get_project_api_key : Action Response
  get_project_api_key = do
    record' ← ApiKeyService.get_project_api_key s
    retrieved w language "ApiKeyResponse" record'

  unfoldable pub revoke_api_key : String → Action Response
  revoke_api_key key_id = do
    deleted_id ← ApiKeyService.revoke_api_key env s key_id
    deleted w language "DeleteIdResponse" deleted_id

  unfoldable pub handle : Request → Action Response
  handle retrieve = get_project_api_key
  handle (revoke key_id) = revoke_api_key key_id

  pub handle-Answers : (r : Request) → Answers (handle r)
  unfolding handle get_project_api_key revoke_api_key
  handle-Answers retrieve db = when_ok-Succeeds _ _ (λ row. once-Answers w language _ _ _ row)
  handle-Answers (revoke key_id) db = when_ok-Succeeds _ _ (λ id. once-Answers w language _ _ _ _)

pub create_api_key-Answers :
    (w : Web) (env : Env) (language internal : String) (headers : Headers)
    (tenant_id project_id name : String)
    → Answers (create_api_key w env language internal headers tenant_id project_id name)
unfolding create_api_key
create_api_key-Answers w env language internal headers tenant_id project_id name db =
    when_ok-Succeeds (require_internal_token internal headers db) _
      (λ _ db'. when_ok-Succeeds _ _ (λ row. reply-Answers w language _ _ 201 _ row (omega arith)))
