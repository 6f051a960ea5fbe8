-- ===== src/Services/Security/Scheduling.antt =====
-- Who may run the scheduler: `get_scheduler_auth` of src/app/core/security/internal_auth.py.
use python_workflow_service.Prelude.{
  String, ◌≡◌, Bool, false, not, ◌&&◌, Option, none, some, List, Bool-cases, inl, inr, str_eq,
  eq_iff, arith,
}
use python_workflow_service.Prelude.Text.{strip, is_empty}
use python_workflow_service.Value.Dict.{Row}
use python_workflow_service.Store.{Db, Env, Result, ok, err, pure, when_ok, api_keys}
use python_workflow_service.Services.ApiKeyService.{ApiKeyScope, resolve_scope}
use python_workflow_service.Services.ApiKeyService.Resolution.{
  Grants, IsUnauthorized, proves, resolve_scope-Grants,
}
use python_workflow_service.Services.Security.{
  Headers, no_scope, get_api_key_scope, get_scheduler_auth,
}

-- The answer for a caller: all tenants for the token, one scope for an API key, or a refusal.
abbrev pub Admits : (Row → Bool) → String → String → List Row → Result (Option ApiKeyScope) → Type 0
Admits p internal token rs (ok none) = (is_empty internal ≡ false) × (strip token ≡ strip internal)
Admits p internal token rs (ok (some scope)) = Grants p rs (ok scope)
Admits p internal token rs (err e) = IsUnauthorized e

granted :
    (p : Row → Bool) (internal token : String) (rs : List Row) (r : Result ApiKeyScope × Db)
    → Grants p rs r.0
    → Admits p internal token rs (when_ok r (λ scope. pure (some scope))).0
granted p internal token rs (ok scope, db) h = h
granted p internal token rs (err e, db) h = h

-- The scheduler runs for all tenants only for a caller who sends the internal token, and only where
-- one is configured. Any other caller who is let in gets the scope of an active row of the API keys,
-- the one with the hash of the key or of the named tenant and project, and the rest is refused as
-- unauthorized.
pub get_scheduler_auth-Admits :
    (env : Env) (internal : String) (h : Headers) (db : Db)
    → Admits
        (proves env no_scope h.x_api_key h.x_tenant_id h.x_project_id)
        internal
        h.x_internal_token
        (db.rows api_keys)
        (get_scheduler_auth env internal h db).0
unfolding get_scheduler_auth get_api_key_scope
get_scheduler_auth-Admits env internal h db =
    elim (Bool-cases
      (not (is_empty internal) && str_eq (strip h.x_internal_token) (strip internal))) [
        | inl trusted ↦
            rw trusted
              (ground arith, ground (arith, eq_iff (strip h.x_internal_token) (strip internal)))
        | inr other' ↦ rw other' (
            granted (proves env no_scope h.x_api_key h.x_tenant_id h.x_project_id) internal
              h.x_internal_token (db.rows api_keys)
              (resolve_scope env no_scope h.x_api_key h.x_tenant_id h.x_project_id db)
              (resolve_scope-Grants env no_scope h.x_api_key h.x_tenant_id h.x_project_id db))
      ]
