-- ===== src/Crud/ApiKeys.antt =====
-- src/app/crud/crud_api_keys.py, with the unique constraint of src/app/models/api_key.py: no two rows
-- have the same tenant and project, deleted rows included.
use python_workflow_service.Prelude.{
  String, Bool, ◌&&◌, Option, none, some, List, [], ◌∷◌, any, if◌then◌else◌,
}
use python_workflow_service.Value.{str, at}
use python_workflow_service.Value.Dict.{Row, get, merge}
use python_workflow_service.Models.{api_key_defaults}
use python_workflow_service.Store.{
  Env, Action, api_keys, integrity, pure, gets, raise, fresh, ◌>>=◌,
}
use python_workflow_service.Store.Query
use python_workflow_service.Store.Query.{
  column_is, is_active, select_one, execute_update, update_where,
}

-- The dict of some columns of a row.
unfoldable pub columns : List String → Row → Row
unfolding get
columns [] r = []
columns (name ∷ names) r = (name, get r name) ∷ columns names r

-- `_api_key_to_dict`.
unfoldable pub api_key_to_dict : Row → Row
unfolding columns
api_key_to_dict =
    columns
      ("id" ∷ "tenant_id" ∷ "project_id" ∷ "name" ∷ "key_prefix" ∷ "key_hash" ∷ "last_used_at" ∷ [])

-- `_public_api_key_dict`.
unfoldable pub public_api_key_dict : Row → Row
unfolding columns
public_api_key_dict = columns (
    "id" ∷ "tenant_id" ∷ "project_id" ∷ "name" ∷ "key_prefix" ∷ "last_used_at" ∷ "created_at"
    ∷ "updated_at" ∷ [])

-- `to_dict(row) if row else None`.
abbrev pub as_dict : (Row → Row) → Option Row → Option Row
as_dict to_dict none = none
as_dict to_dict (some r) = some (to_dict r)

unfoldable pub has_hash : String → Row → Bool
unfolding get
has_hash key_hash r = column_is r "key_hash" key_hash && is_active r

unfoldable pub is_of : String → String → Row → Bool
unfolding get
is_of tenant_id project_id r =
    column_is r "tenant_id" tenant_id && column_is r "project_id" project_id

unfoldable pub get_by_hash : String → Action (Option Row)
unfolding select_one has_hash api_key_to_dict
get_by_hash key_hash = do
  row ← select_one api_keys (has_hash key_hash)
  pure (as_dict api_key_to_dict row)

unfoldable pub get_by_tenant_project : String → String → Action (Option Row)
unfolding select_one is_of api_key_to_dict get
get_by_tenant_project tenant_id project_id = do
  row ← select_one api_keys (λ r. is_of tenant_id project_id r && is_active r)
  pure (as_dict api_key_to_dict row)

unfoldable pub get_public_by_tenant_project : String → String → Action (Option Row)
unfolding select_one is_of public_api_key_dict get
get_public_by_tenant_project tenant_id project_id = do
  row ← select_one api_keys (λ r. is_of tenant_id project_id r && is_active r)
  pure (as_dict public_api_key_dict row)

module _ (env : Env) where
  unfoldable pub touch_last_used : String → Action (Unit {0})
  unfolding update_where merge get
  touch_last_used api_key_id = do
    now ← fresh env.now
    execute_update api_keys (λ r. column_is r "id" api_key_id)
        (λ r. merge r (("last_used_at", at now) ∷ []))

  unfoldable pub soft_delete : String → String → String → Action Bool
  unfolding Query.soft_delete
  soft_delete = Query.soft_delete env api_keys

  -- The insertion breaks the constraint when any row has the tenant and the project.
  unfoldable pub create : String → String → String → String → String → Action Row
  unfolding Query.create api_key_defaults is_of public_api_key_dict
  create tenant_id project_id name key_prefix key_hash = do
    taken ← gets (λ db. any (is_of tenant_id project_id) (db.rows api_keys))
    (if taken
        then raise (integrity "uq_wo_api_keys_tenant_project")
        else Query.create env api_keys "api_key" api_key_defaults tenant_id project_id
            (("name", str name) ∷ ("key_prefix", str key_prefix) ∷ ("key_hash", str key_hash) ∷ [])
          >>= λ row. pure (public_api_key_dict row))
