-- ===== src/Services/ApiKeyService.antt =====
-- `class ApiKeyService` of src/app/business/services/api_key_service.py and
-- src/app/core/utils/api_keys.py. A tenant, a project or a key that is not given is "".
pub mod Resolution
pub mod Uniqueness
pub mod Issue
pub mod Reissue
use Prim.Native.String.{◌++◌}
use python_workflow_service.Prelude.{
  ℕ, String, Bool, not, ◌&&◌, ◌||◌, Option, none, some, List, [], ◌∷◌, leb, if◌then◌else◌,
}
use python_workflow_service.Prelude.Text.{strip, text_length, prefix, is_empty}
use python_workflow_service.Value.{Value, str, truthy, py_str}
use python_workflow_service.Value.Dict.{Row, get, insert}
use python_workflow_service.Store.{
  Env, Action, Error, unauthorized, duplicate_value, pure, raise, or_raise, fresh, ◌>>=◌, ◌>>◌,
}
use python_workflow_service.Crud.ApiKeys
use python_workflow_service.Services.{Scope, missing_record}

abbrev pub min_api_key_length : ℕ
min_api_key_length = 16

-- `hash_api_key`.
abbrev pub hash_api_key : Env → String → String
hash_api_key env raw = env.sha256_hex raw

-- `generate_api_key`: the key, its hash and the prefix that is shown.
unfoldable pub generate_api_key : Env → Action (String × String × String)
generate_api_key env = do
  raw ← fresh env.token_urlsafe
  pure (raw, hash_api_key env raw, prefix 12 raw)

-- `ApiKeyScope` of src/app/schemas/common.py.
pub record ApiKeyScope : Type 0 where
  pub tenant_id : Value
  pub project_id : Value
  pub api_key_id : Value
  pub api_key_name : Value

unfoldable pub scope_of : Row → ApiKeyScope
unfolding get
scope_of row = record {
  tenant_id = get row "tenant_id";
  project_id = get row "project_id";
  api_key_id = get row "id";
  api_key_name = get row "name";
}

-- `a or b`, of texts.
abbrev pub text_or : String → String → String
text_or a b = if is_empty a then b else a

unfoldable pub has_scope : Row → Bool
unfolding get
has_scope row = truthy (get row "tenant_id") && truthy (get row "project_id")

module _ (env : Env) where
  -- The rest of `resolve_scope` for a key, once its row is found.
  unfoldable pub admit : Row → Action ApiKeyScope
  admit row =
      if not (has_scope row)
      then raise (unauthorized "api_keys.errors.project_required")
      else ApiKeys.touch_last_used env (py_str (get row "id")) >> pure (scope_of row)

  -- `resolve_scope` for a text that is long enough to be a key.
  unfoldable pub resolve_key : String → Action ApiKeyScope
  resolve_key key = do
    found ← ApiKeys.get_by_hash (hash_api_key env key)
    row ← or_raise found (unauthorized "api_keys.errors.invalid")
    admit row

  -- `resolve_scope` for a tenant and a project.
  unfoldable pub resolve_headers : String → String → Action ApiKeyScope
  resolve_headers tenant_id project_id =
      if is_empty tenant_id || is_empty project_id
      then raise (unauthorized "api_keys.errors.missing_or_invalid")
      else ApiKeys.get_by_tenant_project tenant_id project_id >>= λ found.
          or_raise found (unauthorized "api_keys.errors.invalid_scope") >>= λ row.
          pure (scope_of row)

  -- `resolve_scope` of a service that has the scope `s`.
  unfoldable pub resolve_scope : Scope → String → String → String → Action ApiKeyScope
  resolve_scope s raw_api_key tenant_id project_id =
      if leb min_api_key_length (text_length (strip raw_api_key))
      then resolve_key (strip raw_api_key)
      else resolve_headers (strip (text_or tenant_id s.tenant_id))
          (strip (text_or project_id s.project_id))

  -- The part of `create_api_key` for a scope that has no active key.
  unfoldable pub issue : String → String → String → Action Row
  issue tenant_id project_id name = do
    (raw_key, key_hash, key_prefix) ← generate_api_key env
    row ←
        ApiKeys.create env tenant_id project_id (text_or (strip name) "API Key") key_prefix key_hash
    pure (insert "key" (str raw_key) row)

  -- `if existing: raise`.
  unfoldable pub issue_unless : Option Row → String → String → String → Action Row
  issue_unless none tenant_id project_id name = issue tenant_id project_id name
  issue_unless (some row) tenant_id project_id name =
      raise (duplicate_value "api_keys.errors.already_exists")

  unfoldable pub create_api_key : String → String → String → Action Row
  create_api_key tenant_id project_id name =
      if is_empty (strip tenant_id) || is_empty (strip project_id)
      then raise (unauthorized "api_keys.errors.missing_or_invalid")
      else ApiKeys.get_by_tenant_project (strip tenant_id) (strip project_id) >>= λ existing.
          issue_unless existing (strip tenant_id) (strip project_id) name

unfoldable pub lacks_scope : Scope → Bool
lacks_scope s = is_empty s.tenant_id || is_empty s.project_id

unfoldable pub get_project_api_key : Scope → Action Row
get_project_api_key s =
    if lacks_scope s
    then raise (unauthorized "api_keys.errors.missing_or_invalid")
    else ApiKeys.get_public_by_tenant_project s.tenant_id s.project_id >>= λ found.
        or_raise found missing_record

unfoldable pub revoke_api_key : Env → Scope → String → Action String
revoke_api_key env s key_id =
    if lacks_scope s
    then raise (unauthorized "api_keys.errors.missing_or_invalid")
    else ApiKeys.soft_delete env s.tenant_id s.project_id key_id >>= λ deleted.
        (if deleted then pure key_id else raise missing_record)
