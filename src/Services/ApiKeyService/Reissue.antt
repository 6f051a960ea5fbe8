-- ===== src/Services/ApiKeyService/Reissue.antt =====
-- A scope whose key was revoked: src/app/business/services/api_key_service.py with the constraint of
-- src/app/models/api_key.py.
use python_workflow_service.Prelude.{
  ◌+◌, ◌≤◌, String, ◌≡◌, refl, Bool, true, false, ◌&&◌, ◌||◌, none, List, [], ◌∷◌, any, find, ◌==◌,
  arith, Bool-cases, inl, inr,
}
use python_workflow_service.Prelude.Text.{strip, is_empty}
use python_workflow_service.Value.{str, at}
use python_workflow_service.Value.Dict.{Row, has_key, merge, get-merge, last_write}
use python_workflow_service.Store.{Db, Env, ok, err, integrity, put_rows, api_keys}
use python_workflow_service.Store.Query
use python_workflow_service.Store.Query.{
  column_is, is_active, in_scope, update_where, count_where, select_one,
}
use python_workflow_service.Crud.ApiKeys
use python_workflow_service.Crud.ApiKeys.{is_of, get_by_tenant_project, api_key_to_dict}
use python_workflow_service.Services.{Scope}
use python_workflow_service.Services.ApiKeyService.{
  issue, issue_unless, create_api_key, revoke_api_key, lacks_scope, generate_api_key,
}
use python_workflow_service.Services.ApiKeyService.Uniqueness.{UniqueScopes, is_of-merge}

-- The rows of a scope of which one is revoked.
module _ (tenant_id project_id key_id : String) (f : Row → Row) where
  abbrev of_scope : Row → Bool
  of_scope = is_of tenant_id project_id

  abbrev revoked : List Row → List Row
  revoked = update_where (in_scope tenant_id project_id key_id) f

  abbrev active_one : Row → Bool
  active_one r = is_of tenant_id project_id r && is_active r

  in_scope-of_scope : (r : Row) → in_scope tenant_id project_id key_id r ≡ true → of_scope r ≡ true
  unfolding in_scope is_of
  in_scope-of_scope r h = ground arith

  module _ (same : (r : Row) → of_scope (f r) ≡ of_scope r)
      (dead : (r : Row) → is_active (f r) ≡ false) where
    -- Without a row of the scope there is none afterwards.
    none_left : (rs : List Row) → count_where of_scope rs ≡ 0 → find active_one (revoked rs) ≡ none
    unfolding update_where count_where
    none_left [] h = refl
    none_left (r ∷ rs) h = elim (Bool-cases (of_scope r)) [
      | inl hit ↦ absurd (let clash = rw hit at h in omega (arith, clash))
      | inr miss ↦
          let rest : count_where of_scope rs ≡ 0 = omega (arith, rw miss at h) in
          elim (Bool-cases (in_scope tenant_id project_id key_id r)) [
            | inl clash ↦ absurd (let wrong = in_scope-of_scope r clash in ground arith)
            | inr other' ↦ rw (other', miss) (none_left rs rest)
          ]
    ]

    count_le :
        (rs : List Row)
        → count_where (in_scope tenant_id project_id key_id) rs ≤ count_where of_scope rs
    unfolding count_where
    count_le [] = omega arith
    count_le (r ∷ rs) = elim (Bool-cases (in_scope tenant_id project_id key_id r)) [
      | inl hit ↦ rw (hit, in_scope-of_scope r hit) (omega (arith, count_le rs))
      | inr miss ↦ rw miss (elim (Bool-cases (of_scope r)) [
        | inl member ↦ rw member (omega (arith, count_le rs))
        | inr outside ↦ rw outside (omega (arith, count_le rs))
      ])
    ]

    -- Of at most one row of the scope, the one that is revoked is no longer active.
    none_active :
        (rs : List Row)
        → count_where of_scope rs ≤ 1
        → count_where (in_scope tenant_id project_id key_id) rs ≡ 1
        → (find active_one (revoked rs) ≡ none) × (any of_scope (revoked rs) ≡ true)
    unfolding update_where count_where
    none_active [] h one = absurd (omega (arith, one))
    none_active (r ∷ rs) h one = elim (Bool-cases (in_scope tenant_id project_id key_id r)) [
      | inl hit ↦
          let member = in_scope-of_scope r hit in
          let few : count_where of_scope rs ≡ 0 = omega (arith, rw member at h) in
          rw (hit, same r, member, dead r) (none_left rs few, refl)
      | inr miss ↦
          let one' : count_where (in_scope tenant_id project_id key_id) rs ≡ 1 =
            omega (arith, rw miss at one) in
          elim (Bool-cases (of_scope r)) [
            | inr outside ↦
                let few : count_where of_scope rs ≤ 1 = omega (arith, rw outside at h) in
                rw (miss, outside) (none_active rs few one')
            | inl member ↦
                let few : count_where of_scope rs ≤ 0 = omega (arith, rw member at h) in
                absurd (omega (arith, few, one', count_le rs))
          ]
    ]

module _ (env : Env) (s : Scope) (key_id name : String) (db : Db) where
  marks : Row
  marks =
      ("record_status", str "deleted")
      ∷ ("deleted_at", at (env.now db.reads))
      ∷ ("updated_at", at (env.now (db.reads + 1)))
      ∷ []

  marked_dead : (r : Row) → is_active (merge r marks) ≡ false
  unfolding marks last_write
  marked_dead r = rw (get-merge r marks "record_status") refl

  revoked_rows : List Row
  revoked_rows = revoked s.tenant_id s.project_id key_id (λ r. merge r marks) (db.rows api_keys)

  revoked_db : Db
  revoked_db = put_rows api_keys revoked_rows (record db { reads = db.reads + 1 + 1 })

  revoke-revoked_db :
      (revoke_api_key env s key_id db).0 ≡ ok key_id
      → (lacks_scope s ≡ false)
        × (count_where (in_scope s.tenant_id s.project_id key_id) (db.rows api_keys) ≡ 1)
        × ((revoke_api_key env s key_id db).1 ≡ revoked_db)
  unfolding revoke_api_key ApiKeys.soft_delete Query.soft_delete revoked_db revoked_rows marks
  revoke-revoked_db h = elim (Bool-cases (lacks_scope s)) [
    | inl lacks ↦ absurd (let clash = rw lacks at h in ground arith)
    | inr has ↦
        elim (Bool-cases
          (count_where (in_scope s.tenant_id s.project_id key_id) (db.rows api_keys) == 1)) [
            | inl hit ↦ (has, ground arith, rw (has, hit) refl)
            | inr miss ↦ absurd (let clash = rw (has, miss) at h in ground arith)
          ]
  ]

  create-revoked_db :
      is_empty s.tenant_id || is_empty s.project_id ≡ false
      → strip s.tenant_id ≡ s.tenant_id
      → strip s.project_id ≡ s.project_id
      → find (active_one s.tenant_id s.project_id key_id (λ r. merge r marks)) revoked_rows ≡ none
      → any (is_of s.tenant_id s.project_id) revoked_rows ≡ true
      → (create_api_key env s.tenant_id s.project_id name revoked_db).0
        ≡ err (integrity "uq_wo_api_keys_tenant_project")
  unfolding create_api_key issue_unless issue generate_api_key get_by_tenant_project select_one
      ApiKeys.create revoked_db
  create-revoked_db given st sp gone taken = rw (st, sp) (rw given (rw gone (rw taken refl)))

  -- A revoked key cannot be replaced. Where no two rows of the API keys have the same tenant and
  -- project, and these are not surrounded by white space, then once the key of a scope has been
  -- revoked, creating one for the scope does not fail as a duplicate, but with the error of the
  -- database on its unique constraint.
  pub revoke-create_api_key :
      UniqueScopes db
      → strip s.tenant_id ≡ s.tenant_id
      → strip s.project_id ≡ s.project_id
      → (revoke_api_key env s key_id db).0 ≡ ok key_id
      → (create_api_key env s.tenant_id s.project_id name (revoke_api_key env s key_id db).1).0
        ≡ err (integrity "uq_wo_api_keys_tenant_project")
  unfolding lacks_scope revoked_rows marks has_key
  revoke-create_api_key unique st sp h =
      let (has, one, state) = revoke-revoked_db h in
      let (gone, taken) =
        none_active s.tenant_id s.project_id key_id (λ r. merge r marks)
          (λ r. is_of-merge s.tenant_id s.project_id r marks refl refl) marked_dead
          (db.rows api_keys) (unique s.tenant_id s.project_id) one in
      rw state (create-revoked_db has st sp gone taken)
