-- ===== src/Examples/Keys.antt =====
-- The theorems on the API keys, at a key of one project.
use python_workflow_service.Prelude.{
  ◌≤◌, ◌≡◌, refl, Bool, List, [], ◌∷◌, Bool-cases, inl, inr, arith,
}
use python_workflow_service.Value.{str}
use python_workflow_service.Value.Dict.{Row, get}
use python_workflow_service.Store.{Db, Table, ok, err, integrity, api_keys}
use python_workflow_service.Store.Query.{count_where, in_scope}
use python_workflow_service.Crud.ApiKeys
use python_workflow_service.Crud.ApiKeys.{is_of, has_hash}
use python_workflow_service.Services.{Scope}
use python_workflow_service.Services.ApiKeyService.{
  ApiKeyScope, resolve_scope, create_api_key, revoke_api_key, lacks_scope,
}
use python_workflow_service.Services.ApiKeyService.Resolution.{Grants, proves, resolve_scope-Grants}
use python_workflow_service.Services.ApiKeyService.Uniqueness.{UniqueScopes}
use python_workflow_service.Services.ApiKeyService.Issue.{
  Created, create_api_key-Created, create_api_key-resolve_scope,
}
use python_workflow_service.Services.ApiKeyService.Reissue.{revoke-create_api_key}
use python_workflow_service.Services.Security.{Headers, no_scope, get_scheduler_auth}
use python_workflow_service.Services.Security.Scheduling.{Admits, get_scheduler_auth-Admits}
use python_workflow_service.Examples.{env, db}

abbrev scope : Scope
scope = record { tenant_id = "t1"; project_id = "p1" }

abbrev key_row : Row
key_row =
    ("id", str "k1")
    ∷ ("tenant_id", str "t1")
    ∷ ("project_id", str "p1")
    ∷ ("name", str "Main")
    ∷ ("key_hash", str "digest")
    ∷ ("record_status", str "active")
    ∷ []

abbrev key_rows : Table → List Row
key_rows api_keys = key_row ∷ []
key_rows _ = []

abbrev keys_db : Db
keys_db = record { rows = key_rows; reads = 0; locks = 0 }

at_most_one : (p : Row → Bool) (r : Row) → count_where p (r ∷ []) ≤ 1
unfolding count_where
at_most_one p r = elim (Bool-cases (p r)) [
  | inl hit ↦ rw hit (omega arith)
  | inr miss ↦ rw miss (omega arith)
]

unique_keys : UniqueScopes keys_db
unique_keys tenant_id project_id = at_most_one (is_of tenant_id project_id) key_row

resolve_scope-Grants_example :
    Grants
      (proves env scope "a-token-of-sixteen" "" "")
      (keys_db.rows api_keys)
      (resolve_scope env scope "a-token-of-sixteen" "" "" keys_db).0
resolve_scope-Grants_example = resolve_scope-Grants env scope "a-token-of-sixteen" "" "" keys_db

-- A deleted row has the scope, so the database refuses.
abbrev revoked_row : Row
revoked_row =
    ("id", str "k1")
    ∷ ("tenant_id", str "t1")
    ∷ ("project_id", str "p1")
    ∷ ("record_status", str "deleted")
    ∷ []

abbrev revoked_rows : Table → List Row
revoked_rows api_keys = revoked_row ∷ []
revoked_rows _ = []

abbrev revoked_db : Db
revoked_db = record { rows = revoked_rows; reads = 0; locks = 0 }

create_api_key-Created_example :
    Created env scope "t1" "p1" "Main" revoked_db (create_api_key env "t1" "p1" "Main" revoked_db)
create_api_key-Created_example = create_api_key-Created env scope "t1" "p1" "Main" revoked_db

create_api_key-resolve_scope_example :
    (row : Row) × (db' : Db) × (granted : ApiKeyScope) × (create_api_key env " t1 " "p1" "Main" db
      ≡ (ok row, db'))
    × (get row "key" ≡ str "a-token-of-sixteen")
    × ((resolve_scope env scope "a-token-of-sixteen" "" "" db').0 ≡ ok granted)
    × (granted.tenant_id ≡ str "t1")
    × (granted.project_id ≡ str "p1")
create_api_key-resolve_scope_example =
    create_api_key-resolve_scope env scope " t1 " "p1" "Main" db refl refl refl refl refl

revoke-create_api_key_example :
    (create_api_key env "t1" "p1" "Main" (revoke_api_key env scope "k1" keys_db).1).0
    ≡ err (integrity "uq_wo_api_keys_tenant_project")
unfolding revoke_api_key lacks_scope ApiKeys.soft_delete in_scope get count_where
revoke-create_api_key_example =
    revoke-create_api_key env scope "k1" "Main" keys_db unique_keys refl refl refl

-- A caller with neither the internal token nor a key.
abbrev stranger : Headers
stranger = record {
  x_internal_token = "guess";
  x_api_key = "";
  x_tenant_id = "t9";
  x_project_id = "p1";
}

get_scheduler_auth-Admits_example :
    Admits
      (proves env no_scope "" "t9" "p1")
      "secret"
      "guess"
      (keys_db.rows api_keys)
      (get_scheduler_auth env "secret" stranger keys_db).0
get_scheduler_auth-Admits_example = get_scheduler_auth-Admits env "secret" stranger keys_db
