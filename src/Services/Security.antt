-- ===== src/Services/Security.antt =====
-- src/app/core/security: who may call. A header that is missing is "", and so is an internal token
-- that is not configured; the schema of the headers has stripped them already.
pub mod Scheduling
use Prim.Native.String.{[], ◌∷◌}
use python_workflow_service.Prelude.{
  ℕ, zero, suc, String, not, ◌&&◌, Option, none, some, str_eq, if◌then◌else◌,
}
use python_workflow_service.Prelude.Text.{strip, lower, prefix, is_empty}
use python_workflow_service.Store.{Env, Action, unauthorized, pure, raise, skip, ◌>>=◌}
use python_workflow_service.Services.{Scope}
use python_workflow_service.Services.ApiKeyService.{ApiKeyScope, resolve_scope}

-- `HeaderSchedulerAuth`, which has the headers of the other routes as well.
pub record Headers : Type 0 where
  pub x_internal_token : String
  pub x_api_key : String
  pub x_tenant_id : String
  pub x_project_id : String

-- `ApiKeyService(db=db)`.
abbrev pub no_scope : Scope
no_scope = record { tenant_id = ""; project_id = "" }

-- `get_api_key_scope`.
unfoldable pub get_api_key_scope : Env → Headers → Action ApiKeyScope
get_api_key_scope env h = resolve_scope env no_scope h.x_api_key h.x_tenant_id h.x_project_id

-- `require_internal_token`, for the token of the settings.
unfoldable pub require_internal_token : String → Headers → Action (Unit {0})
require_internal_token internal h =
    if is_empty internal
    then raise (unauthorized "api_keys.errors.internal_token_required")
    else (if str_eq (strip h.x_internal_token) (strip internal)
        then skip
        else raise (unauthorized "api_keys.errors.invalid_internal_token"))

-- `get_scheduler_auth`: no scope stands for all tenants.
unfoldable pub get_scheduler_auth : Env → String → Headers → Action (Option ApiKeyScope)
get_scheduler_auth env internal h =
    if not (is_empty internal) && str_eq (strip h.x_internal_token) (strip internal)
    then pure none
    else get_api_key_scope env h >>= λ scope. pure (some scope)

-- `s[n:]`.
abbrev pub suffix_from : ℕ → String → String
suffix_from zero s = s
suffix_from (suc n) [] = []
suffix_from (suc n) (c ∷ s) = suffix_from n s

-- `_extract_api_key`, of the two headers.
unfoldable pub extract_api_key : String → String → String
extract_api_key authorization x_api_key =
    if str_eq (prefix 7 (lower authorization)) "bearer "
    then strip (suffix_from 7 authorization)
    else strip x_api_key

-- `get_mcp_api_key_scope`.
unfoldable pub get_mcp_api_key_scope : Env → String → String → Action ApiKeyScope
get_mcp_api_key_scope env authorization x_api_key =
    resolve_scope env no_scope (extract_api_key authorization x_api_key) "" ""
