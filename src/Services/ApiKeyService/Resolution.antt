-- ===== src/Services/ApiKeyService/Resolution.antt =====
-- Which scope src/app/business/services/api_key_service.py gives to a caller.
use python_workflow_service.Prelude.{
  String, ◌≡◌, refl, Bool, true, ◌&&◌, ◌||◌, some, Option-cases, List, find, leb, if◌then◌else◌,
  arith, Bool-cases, inl, inr, find_sound,
}
use python_workflow_service.Prelude.Text.{strip, text_length, is_empty}
use python_workflow_service.Value.Dict.{Row}
use python_workflow_service.Store.{Db, Env, Result, ok, err, Error, unauthorized, api_keys}
use python_workflow_service.Store.Query.{is_active, select_one}
use python_workflow_service.Crud.ApiKeys.{
  has_hash, is_of, api_key_to_dict, get_by_hash, get_by_tenant_project, touch_last_used,
}
use python_workflow_service.Services.{Scope}
use python_workflow_service.Services.ApiKeyService.{
  ApiKeyScope, min_api_key_length, hash_api_key, scope_of, has_scope, text_or, admit, resolve_key,
  resolve_headers, resolve_scope,
}

abbrev pub IsUnauthorized : Error → Type 0
IsUnauthorized (unauthorized k) = Unit
IsUnauthorized _ = ⊥

-- The active row of a tenant and a project.
abbrev pub active_of : String → String → Row → Bool
active_of tenant_id project_id r = is_of tenant_id project_id r && is_active r

-- The row that a caller proves, with the key or with the names of the tenant and the project.
abbrev pub proves : Env → Scope → String → String → String → (Row → Bool)
proves env s raw_api_key tenant_id project_id =
    if leb min_api_key_length (text_length (strip raw_api_key))
    then has_hash (hash_api_key env (strip raw_api_key))
    else active_of (strip (text_or tenant_id s.tenant_id)) (strip (text_or project_id s.project_id))

-- The scope is that of a row which meets the test, or the caller is refused.
abbrev pub Grants : (Row → Bool) → List Row → Result ApiKeyScope → Type 0
Grants p rs (ok scope) =
    (r : Row) × (find p rs ≡ some r)
    × (p r ≡ true)
    × (is_active r ≡ true)
    × (scope ≡ scope_of (api_key_to_dict r))
Grants p rs (err e) = IsUnauthorized e

has_hash_active : (key_hash : String) (r : Row) → has_hash key_hash r ≡ true → is_active r ≡ true
unfolding has_hash
has_hash_active key_hash r h = ground arith

active_of_active :
    (tenant_id project_id : String) (r : Row)
    → active_of tenant_id project_id r ≡ true
    → is_active r ≡ true
active_of_active tenant_id project_id r h = ground arith

module _ (env : Env) where
  resolve_key-Grants :
      (key : String) (db : Db)
      → Grants (has_hash (hash_api_key env key)) (db.rows api_keys) (resolve_key env key db).0
  unfolding resolve_key get_by_hash select_one admit touch_last_used
  resolve_key-Grants key db =
      elim (Option-cases (find (has_hash (hash_api_key env key)) (db.rows api_keys))) [
        | inl none' ↦ rw none' tt
        | inr (r, found) ↦ elim (Bool-cases (has_scope (api_key_to_dict r))) [
          | inr miss ↦ rw (found, miss) tt
          | inl hit ↦
              let proved = find_sound (has_hash (hash_api_key env key)) (db.rows api_keys) found in
              rw (found, hit) (r, found, proved, has_hash_active _ r proved, refl)
        ]
      ]

  resolve_headers-Grants :
      (tenant_id project_id : String) (db : Db)
      → Grants
          (λ r. is_of tenant_id project_id r && is_active r)
          (db.rows api_keys)
          (resolve_headers env tenant_id project_id db).0
  unfolding resolve_headers get_by_tenant_project select_one
  resolve_headers-Grants tenant_id project_id db =
      elim (Bool-cases (is_empty tenant_id || is_empty project_id)) [
        | inl absent ↦ rw absent tt
        | inr given ↦
            elim (Option-cases
              (find (λ r. is_of tenant_id project_id r && is_active r) (db.rows api_keys))) [
                | inl none' ↦ rw (given, none') tt
                | inr (r, found) ↦
                    let proved =
                      find_sound (active_of tenant_id project_id) (db.rows api_keys) found in
                    rw (given, found)
                      (r, found, proved, active_of_active tenant_id project_id r proved, refl)
              ]
      ]

  -- A caller gets the scope of a row of the API keys, and of none but an active one: the row with
  -- the hash of the key where the text is long enough to be a key, otherwise the row of the tenant
  -- and the project that are named. Every other caller is refused as unauthorized.
  pub resolve_scope-Grants :
      (s : Scope) (raw_api_key tenant_id project_id : String) (db : Db)
      → Grants
          (proves env s raw_api_key tenant_id project_id)
          (db.rows api_keys)
          (resolve_scope env s raw_api_key tenant_id project_id db).0
  unfolding resolve_scope
  resolve_scope-Grants s raw_api_key tenant_id project_id db =
      elim (Bool-cases (leb min_api_key_length (text_length (strip raw_api_key)))) [
        | inl long ↦ rw long (resolve_key-Grants (strip raw_api_key) db)
        | inr short ↦ rw short (resolve_headers-Grants _ _ db)
      ]
