-- ===== src/Crud/BusinessProfile.antt =====
-- src/app/crud/crud_business_profile.py, with the primary key of src/app/models/business_profile.py: the
-- id alone, which is "default" in every row that `get_or_create` makes.
pub mod Singleton
use python_workflow_service.Prelude.{
  String, Bool, ◌&&◌, Option, none, some, List, [], ◌∷◌, any, find, if◌then◌else◌,
}
use python_workflow_service.Value.{str, at}
use python_workflow_service.Value.Dict.{Row, get, insert, merge}
use python_workflow_service.Models.{business_profile_defaults}
use python_workflow_service.Store.{
  Env, Action, Error, business_profile, integrity, other, pure, gets, raise, or_raise, fresh, ◌>>=◌,
  ◌>>◌,
}
use python_workflow_service.Store.Query.{
  column_is, select_one, execute_update, update_where, append_row,
}

abbrev pub default_profile_id : String
default_profile_id = "default"

unfoldable pub is_of : String → String → Row → Bool
unfolding get
is_of tenant_id project_id r =
    column_is r "tenant_id" tenant_id && column_is r "project_id" project_id

unfoldable pub has_default_id : Row → Bool
unfolding get
has_default_id r = column_is r "id" default_profile_id

module _ (env : Env) where
  -- The new row of `get_or_create`, which a row with the same primary key refuses.
  unfoldable pub add : String → String → Action Row
  unfolding merge business_profile_defaults has_default_id
  add tenant_id project_id = do
    taken ← gets (λ db. any has_default_id (db.rows business_profile))
    now ← fresh env.now
    let row = merge (business_profile_defaults now) (
        ("id", str default_profile_id)
        ∷ ("tenant_id", str tenant_id)
        ∷ ("project_id", str project_id)
        ∷ [])
    (if taken
        then raise (integrity "business_profile_pkey")
        else append_row business_profile row >> pure row)

  unfoldable pub get_or_create : String → String → Action Row
  unfolding select_one is_of
  get_or_create tenant_id project_id = do
    found ← select_one business_profile (is_of tenant_id project_id)
    elim found [ none ↦ add tenant_id project_id | some row ↦ pure row ]

  unfoldable pub upsert : String → String → Row → Action Row
  unfolding get_or_create update_where merge
  upsert tenant_id project_id data' = do
    get_or_create tenant_id project_id
    now ← fresh env.now
    let values = insert "updated_at" (at now) data'
    found ← select_one business_profile (is_of tenant_id project_id)
    execute_update business_profile (is_of tenant_id project_id) (λ r. merge r values)
    row ← or_raise found (other "No row was found when one was required")
    pure (merge row values)
