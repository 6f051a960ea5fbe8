-- ===== src/Store/Laws.antt =====
-- What the statements shared by the classes of src/app/crud change, and what they leave alone.
use python_workflow_service.Prelude.{
  ◌+◌, String, ◌≡◌, refl, ◌∙◌, Bool, true, false, Option, none, some, List, [], ◌∷◌, find, ◌==◌,
  arith, Bool-cases, inl, inr, str_eq,
}
use python_workflow_service.Value.{Instant, str, at}
use python_workflow_service.Value.Dict.{
  Row, get, has_key, insert, merge, get-merge, has_key-insert, last_write, last_write_absent,
}
use python_workflow_service.Store.{
  Table, Db, Env, ok, same_table, put_rows, contracts, work_orders, invoices, payments,
  audit_events, triggers, webhook_deliveries, assets, asset_categories, form_templates, api_keys,
  custom_fields, business_profile, pdf_templates, api_call_logs,
}
use python_workflow_service.Store.Query.{
  column_is, is_active, in_scope, update_where, count_where, get_by_id, update, soft_delete,
  select_one,
}

-- The same rows in the same places, but for those that meet the test.
abbrev pub KeptOutside : (Row → Bool) → List Row → List Row → Type 0
KeptOutside p [] [] = Unit
KeptOutside p (r ∷ rs) (s ∷ ss) = (p r ≡ false → s ≡ r) × KeptOutside p rs ss
KeptOutside p _ _ = ⊥

pub KeptOutside-refl : (p : Row → Bool) (rs : List Row) → KeptOutside p rs rs
KeptOutside-refl p [] = tt
KeptOutside-refl p (r ∷ rs) = ((λ h. refl), KeptOutside-refl p rs)

module _ (p : Row → Bool) (f : Row → Row) where
  pub update_where-KeptOutside : (rs : List Row) → KeptOutside p rs (update_where p f rs)
  unfolding update_where
  update_where-KeptOutside [] = tt
  update_where-KeptOutside (r ∷ rs) = ((λ h. rw h refl), update_where-KeptOutside rs)

  pub count-update_where :
      ((r : Row) → p (f r) ≡ false) → (rs : List Row) → count_where p (update_where p f rs) ≡ 0
  unfolding update_where count_where
  count-update_where h [] = refl
  count-update_where h (r ∷ rs) = elim (Bool-cases (p r)) [
    | inl hit ↦ rw (hit, h r, count-update_where h rs) refl
    | inr miss ↦ rw (miss, miss, count-update_where h rs) refl
  ]

  pub find-update_where :
      ((r : Row) → p (f r) ≡ false) → (rs : List Row) → find p (update_where p f rs) ≡ none
  unfolding update_where
  find-update_where h [] = refl
  find-update_where h (r ∷ rs) = elim (Bool-cases (p r)) [
    | inl hit ↦ rw (hit, h r) (find-update_where h rs)
    | inr miss ↦ rw (miss, miss) (find-update_where h rs)
  ]

  pub find-update_where_kept :
      ((r : Row) → p r ≡ true → p (f r) ≡ true)
      → (rs : List Row)
      → find p (update_where p f rs) ≡ elim (find p rs) [ none ↦ none | some r ↦ some (f r) ]
  unfolding update_where
  find-update_where_kept h [] = refl
  find-update_where_kept h (r ∷ rs) = elim (Bool-cases (p r)) [
    | inl hit ↦ rw (hit, h r hit) refl
    | inr miss ↦ rw (miss, miss) (find-update_where_kept h rs)
  ]

-- A write that does not name a column leaves it.
pub column_is-merge :
    (r d : Row) (column s : String)
    → has_key d column ≡ false
    → column_is (merge r d) column s ≡ column_is r column s
column_is-merge r d column s h =
    rw (get-merge r d column) (rw (last_write_absent d column (get r column) h) refl)

pub same_table_refl : (t : Table) → same_table t t ≡ true
same_table_refl contracts = refl
same_table_refl work_orders = refl
same_table_refl invoices = refl
same_table_refl payments = refl
same_table_refl audit_events = refl
same_table_refl triggers = refl
same_table_refl webhook_deliveries = refl
same_table_refl assets = refl
same_table_refl asset_categories = refl
same_table_refl form_templates = refl
same_table_refl api_keys = refl
same_table_refl custom_fields = refl
same_table_refl business_profile = refl
same_table_refl pdf_templates = refl
same_table_refl api_call_logs = refl

-- Outside the rows of the table that meet the test, nothing has changed.
pub record Isolated (t : Table) (p : Row → Bool) (db db' : Db) : Type 0 where
  pub kept : KeptOutside p (db.rows t) (db'.rows t)
  pub others : (o : Table) → same_table t o ≡ false → db'.rows o ≡ db.rows o

module _ (t : Table) (p : Row → Bool) (f : Row → Row) where
  pub put_rows-same : (rs : List Row) (db : Db) → (put_rows t rs db).rows t ≡ rs
  put_rows-same rs db = rw (same_table_refl t) refl

  pub put_rows-Isolated :
      (db db' : Db)
      → db'.rows ≡ (put_rows t (update_where p f (db.rows t)) db).rows
      → Isolated t p db db'
  put_rows-Isolated db db' e = record {
    kept = rw e (rw (same_table_refl t) (update_where-KeptOutside p f (db.rows t)));
    others = λ o h. rw e (rw h refl);
  }

pub inactive :
    (tenant_id project_id entity_id : String) (r : Row)
    → is_active r ≡ false
    → in_scope tenant_id project_id entity_id r ≡ false
unfolding in_scope
inactive tenant_id project_id entity_id r h = ground arith

abbrev pub marks : Instant → Instant → Row
marks deleted_at updated_at =
    ("record_status", str "deleted")
    ∷ ("deleted_at", at deleted_at)
    ∷ ("updated_at", at updated_at)
    ∷ []

pub deleted_inactive :
    (deleted_at updated_at : Instant) (r : Row)
    → is_active (merge r (marks deleted_at updated_at)) ≡ false
unfolding last_write
deleted_inactive deleted_at updated_at r =
    rw (get-merge r (marks deleted_at updated_at) "record_status") refl

module _ (env : Env) (t : Table) (tenant_id project_id entity_id : String) where
  abbrev scope : Row → Bool
  scope = in_scope tenant_id project_id entity_id

  kept_scope :
      (r d : Row)
      → in_scope tenant_id project_id entity_id r ≡ true
      → has_key d "id" ≡ false
      → has_key d "tenant_id" ≡ false
      → has_key d "project_id" ≡ false
      → has_key d "record_status" ≡ false
      → in_scope tenant_id project_id entity_id (merge r d) ≡ true
  unfolding in_scope
  kept_scope r d k h1 h2 h3 h4 =
      rw
        (
          column_is-merge r d "id" entity_id h1,
          column_is-merge r d "tenant_id" tenant_id h2,
          column_is-merge r d "project_id" project_id h3,
          column_is-merge r d "record_status" "active" h4,
        )
        k

  -- An update changes no row of another tenant or project, no other row, no deleted row and no
  -- other table.
  pub update-Isolated :
      (data' : Row) (db : Db)
      → Isolated t
          (in_scope tenant_id project_id entity_id)
          db
          (update env t tenant_id project_id entity_id data' db).1
  unfolding update
  update-Isolated data' db = put_rows-Isolated t scope _ db _ refl

  -- Nor does a soft deletion.
  pub soft_delete-Isolated :
      (db : Db)
      → Isolated t
          (in_scope tenant_id project_id entity_id)
          db
          (soft_delete env t tenant_id project_id entity_id db).1
  unfolding soft_delete
  soft_delete-Isolated db = put_rows-Isolated t scope _ db _ refl

  -- A soft deletion returns, tells whether exactly one row was in scope, and afterwards the row is
  -- not found.
  pub soft_delete-get_by_id :
      (db : Db)
      → (db' : Db) × (soft_delete env t tenant_id project_id entity_id db
          ≡ (ok (count_where (in_scope tenant_id project_id entity_id) (db.rows t) == 1), db'))
        × (get_by_id t tenant_id project_id entity_id db' ≡ (ok none, db'))
  unfolding soft_delete get_by_id select_one
  soft_delete-get_by_id db =
      let hidden : (r : Row)
          → scope (merge r (marks (env.now db.reads) (env.now (db.reads + 1)))) ≡ false =
        λ r.
          inactive tenant_id project_id entity_id
            (merge r (marks (env.now db.reads) (env.now (db.reads + 1))))
            (deleted_inactive (env.now db.reads) (env.now (db.reads + 1)) r) in
      (_, refl, rw (same_table_refl t) (rw (find-update_where scope _ hidden (db.rows t)) refl))

  -- An update that names no column of the scope returns the row, with the new values and the time
  -- of the statement, that a later read finds; it returns nothing when the row was not found before.
  pub update-get_by_id :
      (data' : Row) (db : Db)
      → has_key data' "id" ≡ false
      → has_key data' "tenant_id" ≡ false
      → has_key data' "project_id" ≡ false
      → has_key data' "record_status" ≡ false
      → (db' : Db) × (found : Option Row) × (update env t tenant_id project_id entity_id data' db
          ≡ (ok found, db'))
        × (get_by_id t tenant_id project_id entity_id db' ≡ (ok found, db'))
  unfolding update get_by_id select_one
  update-get_by_id data' db h1 h2 h3 h4 =
      let values = insert "updated_at" (at (env.now db.reads)) data' in
      let named : (k : String)
          → str_eq "updated_at" k ≡ false
          → has_key data' k ≡ false
          → has_key values k ≡ false =
        λ k other h. has_key-insert "updated_at" k _ data' ∙ rw (other, h) refl in
      (
        _,
        _,
        refl,
        rw (same_table_refl t) (
            rw
              (find-update_where_kept scope (λ r. merge r values)
                (λ r k.
                  kept_scope r values k (named "id" refl h1) (named "tenant_id" refl h2)
                    (named "project_id" refl h3) (named "record_status" refl h4))
                (db.rows t))
              refl),
      )
