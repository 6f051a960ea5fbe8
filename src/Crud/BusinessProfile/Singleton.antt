-- ===== src/Crud/BusinessProfile/Singleton.antt =====
-- How many profiles src/app/crud/crud_business_profile.py can hold.

use python_workflow_service.Prelude.{
  String, ◌≡◌, refl, Bool, true, ◌||◌, none, some, Option-cases, List, [], ◌∷◌, ◌++◌, any, find,
  All, arith, Bool-cases, inl, inr,
}
use python_workflow_service.Value.Dict.{Row}
use python_workflow_service.Store.{Db, Env, ok, err, integrity, business_profile}
use python_workflow_service.Store.Query.{select_one}
use python_workflow_service.Crud.BusinessProfile.{is_of, has_default_id, add, get_or_create}

any_true : (b : Bool) → b || true ≡ true
any_true b = ground arith

any-append : (p : Row → Bool) (rs : List Row) (r : Row) → p r ≡ true → any p (rs ++ r ∷ []) ≡ true
any-append p [] r h = rw h refl
any-append p (s ∷ rs) r h = rw (any-append p rs r h) (any_true (p s))

-- A row that is found is one of the rows.
found-any :
    (p q : Row → Bool) (rs : List Row) {r : Row}
    → find p rs ≡ some r
    → All (λ s. q s ≡ true) rs
    → any q rs ≡ true
found-any p q [] h k = cc
found-any p q (s ∷ rs) h k = rw k.0 refl

module _ (env : Env) where
  -- Whichever way the profile was got, a row has the default id afterwards.
  get_or_create-any :
      (tenant_id project_id : String) (db : Db) (row : Row)
      → All (λ r. has_default_id r ≡ true) (db.rows business_profile)
      → (get_or_create env tenant_id project_id db).0 ≡ ok row
      → any has_default_id ((get_or_create env tenant_id project_id db).1.rows business_profile)
        ≡ true
  unfolding get_or_create select_one add
  get_or_create-any tenant_id project_id db row all h =
      elim (Option-cases (find (is_of tenant_id project_id) (db.rows business_profile))) [
        | inr (r, found) ↦ rw found (found-any _ has_default_id _ found all)
        | inl missing ↦ elim (Bool-cases (any has_default_id (db.rows business_profile))) [
          | inl taken ↦ absurd (let clash = rw (missing, taken) at h in ground arith)
          | inr free ↦
              rw (missing, free) (any-append has_default_id (db.rows business_profile) _ refl)
        ]
      ]

  add_taken :
      (tenant_id project_id : String) (db : Db)
      → any has_default_id (db.rows business_profile) ≡ true
      → (add env tenant_id project_id db).0 ≡ err (integrity "business_profile_pkey")
  unfolding add
  add_taken tenant_id project_id db h = rw h refl

  -- There is one business profile for all tenants. Where every row of the table was made by
  -- `get_or_create`, so has the default id, and the profile of one tenant and project has been got,
  -- asking for that of any scope without a row fails with the error of the database on the primary
  -- key.
  pub get_or_create-second :
      (tenant_id project_id tenant' project' : String) (db : Db) (row : Row)
      → All (λ r. has_default_id r ≡ true) (db.rows business_profile)
      → (get_or_create env tenant_id project_id db).0 ≡ ok row
      → find
          (is_of tenant' project')
          ((get_or_create env tenant_id project_id db).1.rows business_profile)
        ≡ none
      → (get_or_create env tenant' project' (get_or_create env tenant_id project_id db).1).0
        ≡ err (integrity "business_profile_pkey")
  unfolding get_or_create select_one
  get_or_create-second t p t' p' db row all h missing =
      rw missing (add_taken t' p' _ (get_or_create-any t p db row all h))
