-- ===== src/Store/View.antt =====
-- A table of src/app/crud as its clients see it: a map from tenant, project and id to the active row.
use Prim.Native.String.{◌++◌ as str_append}
use python_workflow_service.Prelude.{
  ◌+◌, String, ◌≡◌, refl, sym, ◌∙◌, Bool, true, false, ◌&&◌, Option, none, some, List, [], ◌∷◌,
  ◌++◌, find, str_eq, eq_iff, if◌then◌else◌, arith, Bool-cases, inl, inr,
}
use python_workflow_service.Prelude.Text.{prefix}
use python_workflow_service.Value.{
  Value, Instant, null, bool, num, str, enum, on, at, seq, obj, is_text,
}
use python_workflow_service.Value.Dict.{
  Row, get, has_key, insert, merge, get-merge, last_write, last_write_absent, has_key-insert,
}
use python_workflow_service.Store.{Table, Db, Env}
use python_workflow_service.Store.Query.{
  column_is, is_active, in_scope, update_where, new_id, insert_row, create, update, soft_delete,
}
use python_workflow_service.Store.Laws.{
  column_is-merge, find-update_where, find-update_where_kept, same_table_refl, marks, inactive,
  deleted_inactive,
}

pub record Key : Type 0 where
  pub tenant_id : String
  pub project_id : String
  pub entity_id : String

abbrev pub same_key : Key → Key → Bool
same_key k j =
    str_eq k.entity_id j.entity_id
    && str_eq k.tenant_id j.tenant_id
    && str_eq k.project_id j.project_id

abbrev pub at_key : Key → Row → Bool
at_key k = in_scope k.tenant_id k.project_id k.entity_id

-- What `get_by_id` finds.
abbrev pub view : Table → Db → Key → Option Row
view t db k = find (at_key k) (db.rows t)

-- The specification: a map, with one key changed.
abbrev pub put : Key → Option Row → (Key → Option Row) → Key → Option Row
put k o m j = if same_key k j then o else m j

abbrev pub map_row : (Row → Row) → Option Row → Option Row
map_row f none = none
map_row f (some r) = some (f r)

is_text_same : (v : Value) (s t : String) → is_text v s ≡ true → is_text v t ≡ str_eq s t
is_text_same (str x) s t h = ground (arith, eq_iff x s, eq_iff x t, eq_iff s t)
is_text_same (enum x) s t h = ground (arith, eq_iff x s, eq_iff x t, eq_iff s t)
is_text_same null s t h = ground arith
is_text_same (bool b) s t h = ground arith
is_text_same (num z) s t h = ground arith
is_text_same (on d) s t h = ground arith
is_text_same (at i) s t h = ground arith
is_text_same (seq vs) s t h = ground arith
is_text_same (obj fs) s t h = ground arith

and_true : (a b c : Bool) → a && b && c && true ≡ a && b && c
and_true a b c = ground arith

-- A row that stands at a key stands at no other.
at_key-same : (k j : Key) (r : Row) → at_key k r ≡ true → at_key j r ≡ same_key k j
unfolding in_scope
at_key-same k j r h =
    let active : is_active r ≡ true = ground arith in
    let id : column_is r "id" j.entity_id ≡ str_eq k.entity_id j.entity_id =
      is_text_same (get r "id") _ _ (ground arith) in
    let tenant : column_is r "tenant_id" j.tenant_id ≡ str_eq k.tenant_id j.tenant_id =
      is_text_same (get r "tenant_id") _ _ (ground arith) in
    let project : column_is r "project_id" j.project_id ≡ str_eq k.project_id j.project_id =
      is_text_same (get r "project_id") _ _ (ground arith) in
    rw (active, id, tenant, project)
      (and_true (str_eq k.entity_id j.entity_id) (str_eq k.tenant_id j.tenant_id)
        (str_eq k.project_id j.project_id))

-- A change of rows that do not meet a test, before or after, is not seen by it.
find-update_where_other :
    (p q : Row → Bool) (f : Row → Row)
    → ((r : Row) → p r ≡ true → q r ≡ false)
    → ((r : Row) → p r ≡ true → q (f r) ≡ false)
    → (rs : List Row) → find q (update_where p f rs) ≡ find q rs
unfolding update_where
find-update_where_other p q f h k [] = refl
find-update_where_other p q f h k (r ∷ rs) = elim (Bool-cases (p r)) [
  | inl hit ↦ rw (hit, h r hit, k r hit) (find-update_where_other p q f h k rs)
  | inr miss ↦ rw (miss, find-update_where_other p q f h k rs) refl
]

find-append_none :
    (p : Row → Bool) (rs : List Row) (r : Row)
    → find p rs ≡ none
    → find p (rs ++ r ∷ []) ≡ (if p r then some r else none)
find-append_none p [] r h = refl
find-append_none p (s ∷ rs) r h = elim (Bool-cases (p s)) [
  | inl clash ↦ absurd (let wrong = rw clash at h in ground arith)
  | inr miss ↦ rw miss (find-append_none p rs r (rw miss at h))
]

find-append_miss :
    (p : Row → Bool) (rs : List Row) (r : Row) → p r ≡ false → find p (rs ++ r ∷ []) ≡ find p rs
find-append_miss p [] r h = rw h refl
find-append_miss p (s ∷ rs) r h = rw (find-append_miss p rs r h) refl

same_key-eq : (k j : Key) → same_key k j ≡ true → k ≡ j
same_key-eq k j h =
    let e1 : k.entity_id ≡ j.entity_id = ground (arith, eq_iff k.entity_id j.entity_id) in
    let e2 : k.tenant_id ≡ j.tenant_id = ground (arith, eq_iff k.tenant_id j.tenant_id) in
    let e3 : k.project_id ≡ j.project_id = ground (arith, eq_iff k.project_id j.project_id) in
    λ i. record { tenant_id = e2 i; project_id = e3 i; entity_id = e1 i }

-- The columns that say where a row stands are not written.
abbrev pub KeepsScope : Row → Type 0
KeepsScope d =
    (has_key d "id" ≡ false)
    × (has_key d "tenant_id" ≡ false)
    × (has_key d "project_id" ≡ false)
    × (has_key d "record_status" ≡ false)

pub at_key-merge : (j : Key) (r d : Row) → KeepsScope d → at_key j (merge r d) ≡ at_key j r
unfolding in_scope
at_key-merge j r d (h1, h2, h3, h4) =
    rw
      (
        column_is-merge r d "id" j.entity_id h1,
        column_is-merge r d "tenant_id" j.tenant_id h2,
        column_is-merge r d "project_id" j.project_id h3,
        column_is-merge r d "record_status" "active" h4,
      )
      refl

mapped :
    (f : Row → Row) (o : Option Row) → (elim o [ none ↦ none | some r ↦ some (f r) ]) ≡ map_row f o
mapped f none = refl
mapped f (some r) = refl

-- The rows at a key are changed so that they stay at it, or so that they are at no key.
module _ (k : Key) (f : Row → Row) (rs : List Row) (j : Key) where
  changed_view :
      ((i : Key) (r : Row) → at_key i (f r) ≡ at_key i r)
      → find (at_key j) (update_where (at_key k) f rs)
        ≡ put k (map_row f (find (at_key k) rs)) (λ i. find (at_key i) rs) j
  changed_view h = elim (Bool-cases (same_key k j)) [
    | inl hit ↦
        rw (hit, sym (same_key-eq k j hit))
          (find-update_where_kept (at_key k) f (λ r here. h k r ∙ here) rs
            ∙ mapped f (find (at_key k) rs))
    | inr miss ↦ rw miss (
        find-update_where_other (at_key k) (at_key j) f (λ r here. at_key-same k j r here ∙ miss)
          (λ r here. h j r ∙ at_key-same k j r here ∙ miss) rs)
  ]

  hidden_view :
      ((i : Key) (r : Row) → at_key i (f r) ≡ false)
      → find (at_key j) (update_where (at_key k) f rs) ≡ put k none (λ i. find (at_key i) rs) j
  hidden_view h = elim (Bool-cases (same_key k j)) [
    | inl hit ↦ rw (hit, sym (same_key-eq k j hit)) (find-update_where (at_key k) f (h k) rs)
    | inr miss ↦ rw miss (
        find-update_where_other (at_key k) (at_key j) f (λ r here. at_key-same k j r here ∙ miss)
          (λ r here. h j r) rs)
  ]

module _ (env : Env) (t : Table) (name : String) (defaults : Instant → Row) (db : Db) where
  -- The row that `create` adds.
  abbrev pub new_row : Key → Row → Row
  new_row k data' = merge (defaults (env.now (db.reads + 1))) (
      ("id", str k.entity_id)
      ∷ ("tenant_id", str k.tenant_id)
      ∷ ("project_id", str k.project_id)
      ∷ data')

  -- Where it stands: the id is the first read from outside.
  abbrev pub new_key : String → String → Key
  new_key tenant_id project_id = record {
    tenant_id = tenant_id;
    project_id = project_id;
    entity_id = str_append name (str_append "_" (prefix 12 (env.uuid_hex db.reads)));
  }

  new_row-at_key :
      (k : Key) (data' : Row)
      → KeepsScope data'
      → ((now : Instant) → is_active (defaults now) ≡ true)
      → at_key k (new_row k data') ≡ true
  unfolding in_scope last_write
  new_row-at_key k data' (h1, h2, h3, h4) active =
      let base = defaults (env.now (db.reads + 1)) in
      let scope : Row =
        ("id", str k.entity_id)
        ∷ ("tenant_id", str k.tenant_id)
        ∷ ("project_id", str k.project_id)
        ∷ data' in
      rw
        (
          get-merge base scope "id",
          get-merge base scope "tenant_id",
          get-merge base scope "project_id",
          get-merge base scope "record_status",
        )
        (rw
          (
            last_write_absent data' "id" (str k.entity_id) h1,
            last_write_absent data' "tenant_id" (str k.tenant_id) h2,
            last_write_absent data' "project_id" (str k.project_id) h3,
            last_write_absent data' "record_status" (get base "record_status") h4,
            active (env.now (db.reads + 1)),
          )
          (ground (
            arith,
            eq_iff k.entity_id k.entity_id,
            eq_iff k.tenant_id k.tenant_id,
            eq_iff k.project_id k.project_id,
          )))

  added_view :
      (k j : Key) (r : Row)
      → at_key k r ≡ true
      → view t db k ≡ none
      → find (at_key j) (db.rows t ++ r ∷ []) ≡ put k (some r) (view t db) j
  added_view k j r here none' = elim (Bool-cases (same_key k j)) [
    | inl hit ↦
        rw (hit, sym (same_key-eq k j hit))
          (find-append_none (at_key k) (db.rows t) r none' ∙ rw here refl)
    | inr miss ↦ rw miss (find-append_miss (at_key j) (db.rows t) r (at_key-same k j r here ∙ miss))
  ]

  -- A table refines a map from tenant, project and id to rows. Where the data names none of the
  -- columns that say where a row stands, the defaults make a row active, and no active row has the
  -- id that is drawn for the new one: `create` puts the new row at its key, `update` changes the row
  -- at the key that it is given, if there is one, `soft_delete` removes what is at the key, and at
  -- every other key each of them leaves what was there.
  pub table-Refines :
      (tenant_id project_id : String) (k : Key) (data' : Row)
      → KeepsScope data'
      → ((now : Instant) → is_active (defaults now) ≡ true)
      → view t db (new_key tenant_id project_id) ≡ none
      → (j : Key)
      → (view t (create env t name defaults tenant_id project_id data' db).1 j
          ≡ put
              (new_key tenant_id project_id)
              (some (new_row (new_key tenant_id project_id) data'))
              (view t db)
              j)
        × (view t (update env t k.tenant_id k.project_id k.entity_id data' db).1 j
            ≡ put k
                (map_row
                  (λ r. merge r (insert "updated_at" (at (env.now db.reads)) data'))
                  (view t db k))
                (view t db)
                j)
        × (view t (soft_delete env t k.tenant_id k.project_id k.entity_id db).1 j
            ≡ put k none (view t db) j)
  unfolding create insert_row new_id update soft_delete has_key last_write
  table-Refines tenant_id project_id k data' (h1, h2, h3, h4) active none' j =
      let values = insert "updated_at" (at (env.now db.reads)) data' in
      let named : (c : String)
          → str_eq "updated_at" c ≡ false
          → has_key data' c ≡ false
          → has_key values c ≡ false =
        λ c other' h. has_key-insert "updated_at" c _ data' ∙ rw (other', h) refl in
      let keeps : KeepsScope values = (
        named "id" refl h1,
        named "tenant_id" refl h2,
        named "project_id" refl h3,
        named "record_status" refl h4,
      ) in
      let key = new_key tenant_id project_id in
      (
        rw (same_table_refl t) (
            added_view key j (new_row key data') (new_row-at_key key data' (h1, h2, h3, h4) active)
              none'),
        rw (same_table_refl t) (
            changed_view k (λ r. merge r values) (db.rows t) j
              (λ i r. at_key-merge i r values keeps)),
        rw (same_table_refl t) (
            hidden_view k (λ r. merge r (marks (env.now db.reads) (env.now (db.reads + 1))))
              (db.rows t) j
              (λ i r.
                inactive i.tenant_id i.project_id i.entity_id
                  (merge r (marks (env.now db.reads) (env.now (db.reads + 1))))
                  (deleted_inactive (env.now db.reads) (env.now (db.reads + 1)) r))),
      )
