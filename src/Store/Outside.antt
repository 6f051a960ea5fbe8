-- ===== src/Store/Outside.antt =====
-- What the statements of src/app/crud do to the rows of other tenants and projects: nothing, where the data
-- that is written names no tenant and no project.
use python_workflow_service.Prelude.{
  ℕ, ◌+◌, String, ◌≡◌, refl, sym, ap, ◌∙◌, Bool, true, false, ◌&&◌, Option, none, some, List, [],
  ◌∷◌, ◌++◌, str_eq, eq_iff, arith, Bool-cases, inl, inr, ◌==◌, if◌then◌else◌,
}
use python_workflow_service.Value.{Value, Instant, str, at}
use python_workflow_service.Value.Dict.{
  Row, get, has_key, insert, erase, merge, set_default, get-merge, has_key-insert, last_write,
  last_write_absent,
}
use python_workflow_service.Store.{
  Db, Env, Table, Action, Result, ok, err, Error, code, same_table, put_rows, when_ok, or_raise,
  contracts, work_orders, invoices, payments, audit_events, triggers, webhook_deliveries, assets,
  asset_categories, form_templates, api_keys, custom_fields, business_profile, pdf_templates,
  api_call_logs,
}
use python_workflow_service.Store.Laws.{column_is-merge, marks}
use python_workflow_service.Store.Query.{
  column_is, in_scope, update_where, insert_row, create, update, soft_delete, new_id,
}

-- The table of a code.
table_of : ℕ → Table
table_of n =
    if n == 0
    then contracts
    else (if n == 1
        then work_orders
        else (if n == 2
            then invoices
            else (if n == 3
                then payments
                else (if n == 4
                    then audit_events
                    else (if n == 5
                        then triggers
                        else (if n == 6
                            then webhook_deliveries
                            else (if n == 7
                                then assets
                                else (if n == 8
                                    then asset_categories
                                    else (if n == 9
                                        then form_templates
                                        else (if n == 10
                                            then api_keys
                                            else (if n == 11
                                                then custom_fields
                                                else (if n == 12
                                                    then business_profile
                                                    else (if n == 13
                                                        then pdf_templates
                                                        else api_call_logs)))))))))))))

table_of-code : (t : Table) → table_of (code t) ≡ t
unfolding table_of
table_of-code contracts = refl
table_of-code work_orders = refl
table_of-code invoices = refl
table_of-code payments = refl
table_of-code audit_events = refl
table_of-code triggers = refl
table_of-code webhook_deliveries = refl
table_of-code assets = refl
table_of-code asset_categories = refl
table_of-code form_templates = refl
table_of-code api_keys = refl
table_of-code custom_fields = refl
table_of-code business_profile = refl
table_of-code pdf_templates = refl
table_of-code api_call_logs = refl

==-eq : (m n : ℕ) → (m == n) ≡ true → m ≡ n
==-eq m n h = ground arith

same_table-eq : (t u : Table) → same_table t u ≡ true → t ≡ u
same_table-eq t u h =
    sym (table_of-code t) ∙ ap table_of (==-eq (code t) (code u) h) ∙ table_of-code u

-- The data names no tenant and no project.
abbrev pub Unscoped : Row → Type 0
Unscoped d = (has_key d "tenant_id" ≡ false) × (has_key d "project_id" ≡ false)

module _ (tenant_id project_id : String) where
  abbrev pub owns : Row → Bool
  owns r = column_is r "tenant_id" tenant_id && column_is r "project_id" project_id

  -- The rows of the other tenants and projects, in order.
  unfoldable pub others : List Row → List Row
  unfolding get
  others [] = []
  others (r ∷ rs) = if owns r then others rs else r ∷ others rs

  pub record Kept (db db' : Db) : Type 0 where
    pub same : (t : Table) → others (db'.rows t) ≡ others (db.rows t)

  pub Kept-refl : (db db' : Db) → db'.rows ≡ db.rows → Kept db db'
  Kept-refl db db' h = record { same = λ t. ap (λ rows. others (rows t)) h }

  abbrev pub Keeps {ℓ} : {A : Type ℓ} → Action A → Type 0
  Keeps act = (db : Db) → Kept db (act db).1

  pub others-update_where :
      (p : Row → Bool) (f : Row → Row)
      → ((r : Row) → p r ≡ true → (owns r ≡ true) × (owns (f r) ≡ true))
      → (rs : List Row) → others (update_where p f rs) ≡ others rs
  unfolding others update_where
  others-update_where p f h [] = refl
  others-update_where p f h (r ∷ rs) = elim (Bool-cases (p r)) [
    | inl hit ↦ rw (hit, (h r hit).0, (h r hit).1) (others-update_where p f h rs)
    | inr miss ↦ rw (miss, others-update_where p f h rs) refl
  ]

  pub others-append :
      (r : Row) → owns r ≡ true → (rs : List Row) → others (rs ++ r ∷ []) ≡ others rs
  unfolding others
  others-append r h [] = rw h refl
  others-append r h (q ∷ rs) = rw (others-append r h rs) refl

  pub put_rows-Kept :
      (t : Table) (rs : List Row) (db : Db)
      → others rs ≡ others (db.rows t)
      → (db' : Db) → db'.rows ≡ (put_rows t rs db).rows
      → Kept db db'
  put_rows-Kept t rs db h db' e = record {
    same = λ u. ap (λ rows. others (rows u)) e ∙ elim (Bool-cases (same_table t u)) [
      | inl same ↦ rw same (h ∙ ap (λ o. others (db.rows o)) (same_table-eq t u same))
      | inr different ↦ rw different refl
    ];
  }

  pub Kept-trans : (db db' db'' : Db) → Kept db db' → Kept db' db'' → Kept db db''
  Kept-trans db db' db'' h k = record { same = λ t. k.same t ∙ h.same t }

  -- The rest of a `do` block.
  pub when_ok-Kept :
      {A B : Type 0} (k : A → Action B) (before : Db) (r : Result A × Db)
      → Kept before r.1
      → ((a : A) → Keeps (k a))
      → Kept before (when_ok r k).1
  when_ok-Kept k before (ok a, db) h keeps = Kept-trans before db (k a db).1 h (keeps a db)
  when_ok-Kept k before (err e, db) h keeps = h

  pub or_raise-Keeps : {A : Type 0} (o : Option A) (e : Error) → Keeps (or_raise o e)
  or_raise-Keeps none e db = Kept-refl db db refl
  or_raise-Keeps (some a) e db = Kept-refl db db refl

  pub owns-merge : (r d : Row) → Unscoped d → owns (merge r d) ≡ owns r
  owns-merge r d (h1, h2) =
      rw
        (
          column_is-merge r d "tenant_id" tenant_id h1,
          column_is-merge r d "project_id" project_id h2,
        )
        refl

  in_scope-owns :
      (entity_id : String) (r : Row)
      → in_scope tenant_id project_id entity_id r ≡ true
      → owns r ≡ true
  unfolding in_scope
  in_scope-owns entity_id r h = ground arith

  module _ (env : Env) (t : Table) where
    pub update-Keeps :
        (entity_id : String) (data' : Row)
        → Unscoped data'
        → Keeps (update env t tenant_id project_id entity_id data')
    unfolding update
    update-Keeps entity_id data' (h1, h2) db =
        let values = insert "updated_at" (at (env.now db.reads)) data' in
        let unscoped : Unscoped values = (
          has_key-insert "updated_at" "tenant_id" _ data' ∙ h1,
          has_key-insert "updated_at" "project_id" _ data' ∙ h2,
        ) in
        put_rows-Kept t _ db
          (others-update_where (in_scope tenant_id project_id entity_id) (λ r. merge r values)
            (λ r hit. (
              in_scope-owns entity_id r hit,
              owns-merge r values unscoped ∙ in_scope-owns entity_id r hit,
            ))
            (db.rows t))
          _ refl

    pub soft_delete-Keeps :
        (entity_id : String) → Keeps (soft_delete env t tenant_id project_id entity_id)
    unfolding soft_delete has_key
    soft_delete-Keeps entity_id db =
        let values = marks (env.now db.reads) (env.now (db.reads + 1)) in
        put_rows-Kept t _ db
          (others-update_where (in_scope tenant_id project_id entity_id) (λ r. merge r values)
            (λ r hit. (
              in_scope-owns entity_id r hit,
              owns-merge r values (refl, refl) ∙ in_scope-owns entity_id r hit,
            ))
            (db.rows t))
          _ refl

    -- The new row belongs to the tenant and the project.
    owns-new :
        (base data' : Row) (entity_id : Value)
        → Unscoped data'
        → owns (
            merge base (
              ("id", entity_id)
              ∷ ("tenant_id", str tenant_id)
              ∷ ("project_id", str project_id)
              ∷ data'))
          ≡ true
    unfolding last_write
    owns-new base data' entity_id (h1, h2) =
        let values : Row =
          ("id", entity_id)
          ∷ ("tenant_id", str tenant_id)
          ∷ ("project_id", str project_id)
          ∷ data' in
        let owner : get (merge base values) "tenant_id" ≡ str tenant_id =
          get-merge base values "tenant_id"
          ∙ last_write_absent data' "tenant_id" (str tenant_id) h1 in
        let project : get (merge base values) "project_id" ≡ str project_id =
          get-merge base values "project_id"
          ∙ last_write_absent data' "project_id" (str project_id) h2 in
        rw (owner, project)
          (ground (arith, eq_iff tenant_id tenant_id, eq_iff project_id project_id))

    pub insert_row-Keeps :
        (name : String) (defaults : Instant → Row) (rest : Row)
        → Unscoped rest
        → Keeps (
            insert_row env t name defaults
              (("tenant_id", str tenant_id) ∷ ("project_id", str project_id) ∷ rest))
    unfolding insert_row new_id
    insert_row-Keeps name defaults rest h db =
        put_rows-Kept t _ db
          (others-append _ (owns-new (defaults (env.now (db.reads + 1))) rest _ h) (db.rows t)) _
          refl

    pub create-Keeps :
        (name : String) (defaults : Instant → Row) (data' : Row)
        → Unscoped data'
        → Keeps (create env t name defaults tenant_id project_id data')
    unfolding create
    create-Keeps = insert_row-Keeps

-- What the payloads of the services keep: no key is made but those that are written.
module _ (k : String) where
  pub insert-absent :
      (j : String) (v : Value) (d : Row)
      → str_eq j k ≡ false
      → has_key d k ≡ false
      → has_key (insert j v d) k ≡ false
  insert-absent j v d other h = has_key-insert j k v d ∙ rw (other, h) refl

  pub set_default-absent :
      (j : String) (v : Value) (d : Row)
      → str_eq j k ≡ false
      → has_key d k ≡ false
      → has_key (set_default j v d) k ≡ false
  unfolding set_default
  set_default-absent j v d other h = elim (Bool-cases (has_key d j)) [
    | inl there ↦ rw there h
    | inr missing ↦ rw missing (insert-absent j v d other h)
  ]

  pub erase-absent : (j : String) (d : Row) → has_key d k ≡ false → has_key (erase j d) k ≡ false
  unfolding erase has_key
  erase-absent j [] h = refl
  erase-absent j ((i, v) ∷ d) h = ground (arith, erase-absent j d)
