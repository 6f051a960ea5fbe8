-- ===== src/Services/ApiKeyService/Issue.antt =====
-- Issuing, using and revoking a key: src/app/business/services/api_key_service.py.
use Prim.Native.String.{◌++◌ as str_append}
use python_workflow_service.Prelude.{
  ◌⊎◌, Option-cases, ◌+◌, String, ◌≡◌, refl, Bool, true, false, not, ◌&&◌, ◌||◌, none, some, List,
  [], ◌∷◌, ◌++◌, any, find, leb, str_eq, eq_iff, arith, Bool-cases, inl, inr,
}
use python_workflow_service.Prelude.Text.{strip, text_length, is_empty, prefix}
use python_workflow_service.Value.{str}
use python_workflow_service.Value.Dict.{Row, get, merge, insert}
use python_workflow_service.Models.{api_key_defaults}
use python_workflow_service.Store.{
  Db, Env, Result, ok, err, put_rows, api_keys, unauthorized, duplicate_value, integrity,
}
use python_workflow_service.Store.Query
use python_workflow_service.Store.Query.{
  column_is, is_active, in_scope, update_where, count_where, select_one,
}
use python_workflow_service.Crud.ApiKeys
use python_workflow_service.Crud.ApiKeys.{
  is_of, has_hash, columns, get_by_hash, api_key_to_dict, public_api_key_dict,
  get_by_tenant_project, touch_last_used,
}
use python_workflow_service.Services.{Scope}
use python_workflow_service.Services.ApiKeyService.{
  ApiKeyScope, hash_api_key, admit, resolve_key, resolve_scope, issue, issue_unless, create_api_key,
  generate_api_key, has_scope, scope_of, min_api_key_length, text_or,
}

find-append :
    (p : Row → Bool) (rs : List Row) (r : Row)
    → any p rs ≡ false
    → p r ≡ true
    → find p (rs ++ r ∷ []) ≡ some r
find-append p [] r absent hit = rw hit refl
find-append p (s ∷ rs) r absent hit = elim (Bool-cases (p s)) [
  | inl clash ↦ absurd (let wrong = rw clash at absent in ground arith)
  | inr miss ↦ rw miss (find-append p rs r (rw miss at absent) hit)
]

found-any : (p : Row → Bool) (rs : List Row) (r : Row) → find p rs ≡ some r → any p rs ≡ true
found-any p [] r h = ground arith
found-any p (s ∷ rs) r h = elim (Bool-cases (p s)) [
  | inl hit ↦ rw hit refl
  | inr miss ↦ rw miss (found-any p rs r (rw miss at h))
]

none-any : (p : Row → Bool) (rs : List Row) → find p rs ≡ none → any p rs ≡ false
none-any p [] h = refl
none-any p (s ∷ rs) h = elim (Bool-cases (p s)) [
  | inl hit ↦ absurd (let clash = rw hit at h in ground arith)
  | inr miss ↦ rw miss (none-any p rs (rw miss at h))
]

-- Without a row of a scope there is none that is active.
no_active :
    (tenant_id project_id : String) (rs : List Row)
    → any (is_of tenant_id project_id) rs ≡ false
    → find (λ r. is_of tenant_id project_id r && is_active r) rs ≡ none
no_active tenant_id project_id [] absent = refl
no_active tenant_id project_id (r ∷ rs) absent = elim (Bool-cases (is_of tenant_id project_id r)) [
  | inl clash ↦ absurd (let wrong = rw clash at absent in ground arith)
  | inr miss ↦ rw miss (no_active tenant_id project_id rs (rw miss at absent))
]

both_given : (a b : Bool) → a || b ≡ false → not a && not b ≡ true
both_given a b h = ground arith

module _ (env : Env) (s : Scope) (tenant_id project_id name : String) (db : Db) where
  -- The key that `create_api_key` draws: the first read from outside.
  abbrev pub drawn : String
  drawn = env.token_urlsafe db.reads

  new_row : Row
  new_row = merge (api_key_defaults (env.now (db.reads + 1 + 1))) (
      ("id", str (str_append "api_key" (str_append "_" (prefix 12 (env.uuid_hex (db.reads + 1))))))
      ∷ ("tenant_id", str (strip tenant_id))
      ∷ ("project_id", str (strip project_id))
      ∷ ("name", str (text_or (strip name) "API Key"))
      ∷ ("key_prefix", str (prefix 12 drawn))
      ∷ ("key_hash", str (hash_api_key env drawn))
      ∷ [])

  shown_row : Row
  shown_row = insert "key" (str drawn) (public_api_key_dict new_row)

  next_db : Db
  next_db =
      put_rows api_keys (db.rows api_keys ++ new_row ∷ [])
        (record db { reads = db.reads + 1 + 1 + 1 })

  create_api_key-next_db :
      is_empty (strip tenant_id) || is_empty (strip project_id) ≡ false
      → any (is_of (strip tenant_id) (strip project_id)) (db.rows api_keys) ≡ false
      → create_api_key env tenant_id project_id name db ≡ (ok shown_row, next_db)
  unfolding create_api_key get_by_tenant_project select_one issue_unless issue generate_api_key
      ApiKeys.create Query.create Query.insert_row Query.new_id new_row shown_row next_db
  create_api_key-next_db given free =
      rw (given, no_active (strip tenant_id) (strip project_id) (db.rows api_keys) free)
        (rw free refl)

  new_row_hash : has_hash (hash_api_key env drawn) new_row ≡ true
  unfolding has_hash new_row merge api_key_defaults get
  new_row_hash =
      let same : str_eq (env.sha256_hex drawn) (env.sha256_hex drawn) ≡ true =
        ground (arith, eq_iff (env.sha256_hex drawn) (env.sha256_hex drawn)) in
      rw same refl

  -- A key names the tenant and the project of its row, which are not blank.
  new_row_scope :
      is_empty (strip tenant_id) || is_empty (strip project_id) ≡ false
      → has_scope (api_key_to_dict new_row) ≡ true
  unfolding has_scope new_row merge api_key_defaults get api_key_to_dict
  new_row_scope given = both_given _ _ given

  resolve_key-next_db :
      is_empty (strip tenant_id) || is_empty (strip project_id) ≡ false
      → any (has_hash (hash_api_key env drawn)) (db.rows api_keys) ≡ false
      → (resolve_key env drawn next_db).0 ≡ ok (scope_of (api_key_to_dict new_row))
  unfolding resolve_key get_by_hash select_one admit next_db touch_last_used
  resolve_key-next_db given unused =
      rw
        (
          find-append (has_hash (hash_api_key env drawn)) (db.rows api_keys) new_row unused
              new_row_hash,
          new_row_scope given,
        )
        refl

  -- A new key is let in. Where the tenant and the project are not blank, no row of the API keys
  -- has them, no active row has the hash of the key that is drawn, and that key is at least sixteen
  -- characters without white space at its ends, `create_api_key` returns the key, and it resolves
  -- to the tenant and the project, stripped.
  pub create_api_key-resolve_scope :
      is_empty (strip tenant_id) || is_empty (strip project_id) ≡ false
      → any (is_of (strip tenant_id) (strip project_id)) (db.rows api_keys) ≡ false
      → any (has_hash (hash_api_key env drawn)) (db.rows api_keys) ≡ false
      → strip drawn ≡ drawn
      → leb min_api_key_length (text_length drawn) ≡ true
      → (row : Row) × (db' : Db) × (scope : ApiKeyScope) × (create_api_key env tenant_id project_id
            name db
          ≡ (ok row, db'))
        × (get row "key" ≡ str drawn)
        × ((resolve_scope env s drawn "" "" db').0 ≡ ok scope)
        × (scope.tenant_id ≡ str (strip tenant_id))
        × (scope.project_id ≡ str (strip project_id))
  unfolding resolve_scope new_row shown_row get insert public_api_key_dict scope_of api_key_to_dict
      merge api_key_defaults
  create_api_key-resolve_scope given free unused clean long = (
    shown_row,
    next_db,
    scope_of (api_key_to_dict new_row),
    create_api_key-next_db given free,
    refl,
    rw clean (rw long (resolve_key-next_db given unused)),
    refl,
    refl,
  )

  -- Whether an active row has the scope, and whether any row has.
  abbrev in_use : Bool
  in_use = any (λ r. is_of (strip tenant_id) (strip project_id) r && is_active r) (db.rows api_keys)

  abbrev taken : Bool
  taken = any (is_of (strip tenant_id) (strip project_id)) (db.rows api_keys)

  abbrev blank : Bool
  blank = is_empty (strip tenant_id) || is_empty (strip project_id)

  -- The row that is added, and what the caller is shown.
  pub record Added (row : Row) (rows : List Row) : Type 0 where
    pub new : Row
    pub appended : rows ≡ db.rows api_keys ++ new ∷ []
    pub scope : is_of (strip tenant_id) (strip project_id) new ≡ true
    pub active : is_active new ≡ true
    pub hash : get new "key_hash" ≡ str (hash_api_key env drawn)
    pub key : get row "key" ≡ str drawn

  abbrev pub Created : Result Row × Db → Type 0
  Created ran =
      ((blank ≡ true) × (ran ≡ (err (unauthorized "api_keys.errors.missing_or_invalid"), db)))
      ⊎ ((blank ≡ false)
          × (in_use ≡ true)
          × (ran ≡ (err (duplicate_value "api_keys.errors.already_exists"), db)))
      ⊎ ((blank ≡ false)
          × (in_use ≡ false)
          × (taken ≡ true)
          × (ran.0 ≡ err (integrity "uq_wo_api_keys_tenant_project"))
          × (ran.1.rows ≡ db.rows))
      ⊎ ((blank ≡ false)
          × (taken ≡ false)
          × (row : Row) × (ran.0 ≡ ok row)
          × Added row (ran.1.rows api_keys))

  -- Creating a key is refused without a tenant or a project, and as a duplicate where an active row
  -- has them, and then nothing changes. Where only deleted rows have them it fails on the unique
  -- constraint and no row changes. Otherwise one active row of the tenant and the project is added, with
  -- the hash of the key that the caller is shown.
  pub create_api_key-Created : Created (create_api_key env tenant_id project_id name db)
  unfolding create_api_key get_by_tenant_project select_one issue_unless issue generate_api_key
      ApiKeys.create new_row shown_row next_db get merge api_key_defaults is_of insert
      public_api_key_dict
  create_api_key-Created = elim (Bool-cases blank) [
    | inl absent ↦ inl (absent, rw absent refl)
    | inr given ↦
        elim (Option-cases (
          find (λ r. is_of (strip tenant_id) (strip project_id) r && is_active r)
            (db.rows api_keys))) [
              | inr (r, found) ↦
                  inr (inl (given, found-any _ (db.rows api_keys) r found, rw (given, found) refl))
              | inl missing ↦
                  let unused = none-any _ (db.rows api_keys) missing in
                  elim (Bool-cases taken) [
                    | inl deleted ↦ inr (
                        inr (
                          inl (
                            given,
                            unused,
                            deleted,
                            rw (given, missing) (rw deleted refl),
                            rw (given, missing) (rw deleted refl),
                          )))
                    | inr free ↦
                        let made = create_api_key-next_db given free in
                        inr (
                          inr (
                            inr (
                              given,
                              free,
                              shown_row,
                              rw made refl,
                              record {
                                new = new_row;
                                appended = rw made refl;
                                scope = ground (
                                  arith,
                                  eq_iff (strip tenant_id) (strip tenant_id),
                                  eq_iff (strip project_id) (strip project_id),
                                );
                                active = refl;
                                hash = refl;
                                key = refl;
                              },
                            )))
                  ]
            ]
  ]
