-- ===== src/Services/Isolation.antt =====
-- The reads and the cleaned payloads of the services of src/app/business/services, for what the services do
-- to the rows of other tenants and projects.
pub mod Records
pub mod Settings
pub mod Recording
pub mod Invoicing
pub mod Paying
pub mod Printing
use python_workflow_service.Prelude.{
  String, ◌≡◌, refl, ◌∙◌, Bool, true, false, Option, none, some, List, [], ◌∷◌, find, filter,
  str_eq, eq_iff, arith, Bool-cases, inl, inr, ◌==◌, ltb, if◌then◌else◌,
}
use python_workflow_service.Prelude.Text.{is_empty}
use python_workflow_service.Value.{Value, is_none, truthy, py_str}
use python_workflow_service.Value.Dict.{Row, has_key}
use python_workflow_service.Store.{
  Db, Env, Action, Table, Error, raise, pure, skip, or_raise, ◌>>=◌,
}
use python_workflow_service.Store.Query
use python_workflow_service.Store.Query.{select_one, in_scope}
use python_workflow_service.Store.Outside.{Kept, Kept-refl, Keeps, or_raise-Keeps, when_ok-Kept}
use python_workflow_service.Services.{
  Scope, missing_record, get_record, ensure_exists, ensure_each, ensure_if_given,
  prepare_update_payload,
}
use python_workflow_service.Services.BusinessProfileService.{without_none}

-- A step of a service leaves the rows of other tenants and projects alone.
abbrev pub Stays {ℓ} : Scope → {A : Type ℓ} → Action A → Type 0
Stays s act = Keeps s.tenant_id s.project_id act

module _ (s : Scope) where
  pub get_record-Stays : (t : Table) (entity_id : String) → Stays s (get_record t s entity_id)
  unfolding get_record Query.get_by_id select_one
  get_record-Stays t entity_id db =
      or_raise-Keeps s.tenant_id s.project_id
        (find (in_scope s.tenant_id s.project_id entity_id) (db.rows t)) missing_record db

  pub ensure_exists-Stays : (t : Table) (entity_id : String) → Stays s (ensure_exists t s entity_id)
  unfolding ensure_exists
  ensure_exists-Stays t entity_id db =
      when_ok-Kept s.tenant_id s.project_id _ db (get_record t s entity_id db)
        (get_record-Stays t entity_id db)
        (λ row db'. Kept-refl s.tenant_id s.project_id db' db' refl)

  pub ensure_if_given-Stays : (t : Table) (id : Value) → Stays s (ensure_if_given t s id)
  unfolding ensure_if_given
  ensure_if_given-Stays t id db = elim (Bool-cases (truthy id)) [
    | inl given ↦ rw given (ensure_exists-Stays t (py_str id) db)
    | inr missing ↦ rw missing (Kept-refl s.tenant_id s.project_id db db refl)
  ]

  -- `return` or `raise`, by a test.
  pub decided-Stays :
      {A : Type 0} (b : Bool) (m n : Action A)
      → Stays s m
      → Stays s n
      → Stays s (if b then m else n)
  decided-Stays true m n h k = h
  decided-Stays false m n h k = k

  pub same-Stays : {A : Type 0} (a : A) → Stays s (pure a)
  same-Stays a db = Kept-refl s.tenant_id s.project_id db db refl

  pub raise-Stays : (A : Type 0) (e : Error) → Stays s (raise {A = A} e)
  raise-Stays A e db = Kept-refl s.tenant_id s.project_id db db refl

module _ (s : Scope) where
  pub bind-Stays :
      {A B : Type 0} (m : Action A) (k : A → Action B)
      → Stays s m
      → ((a : A) → Stays s (k a))
      → Stays s (m >>= k)
  bind-Stays m k h keeps db = when_ok-Kept s.tenant_id s.project_id k db (m db) (h db) keeps

-- What a soft deletion answers.
module _ (s : Scope) where
  pub deleted-Stays :
      (entity_id : String) (m : Action Bool)
      → Stays s m
      → Stays s (m >>= λ deleted. if deleted then pure entity_id else raise missing_record)
  deleted-Stays entity_id m h db =
      when_ok-Kept s.tenant_id s.project_id _ db (m db) (h db) (λ deleted.
        decided-Stays s deleted _ _ (same-Stays s entity_id) (raise-Stays s String missing_record))

  -- What an update answers.
  pub found-Stays :
      (m : Action (Option Row)) → Stays s m → Stays s (m >>= λ found. or_raise found missing_record)
  found-Stays m h db =
      when_ok-Kept s.tenant_id s.project_id _ db (m db) (h db)
        (λ found. or_raise-Keeps s.tenant_id s.project_id found missing_record)

-- A key that a payload does not have is not made by cleaning it.
module _ (k : String) where
  pub prepare_update_payload-absent :
      (nullable : List String) (name : String) (d : Row)
      → has_key d k ≡ false
      → has_key (prepare_update_payload nullable name d) k ≡ false
  unfolding prepare_update_payload has_key
  prepare_update_payload-absent nullable name [] h = refl
  prepare_update_payload-absent nullable name ((j, v) ∷ d) h =
      ground (arith, prepare_update_payload-absent nullable name d)

  pub without_none-absent : (d : Row) → has_key d k ≡ false → has_key (without_none d) k ≡ false
  unfolding without_none has_key
  without_none-absent [] h = refl
  without_none-absent ((j, v) ∷ d) h = ground (arith, without_none-absent d)

  pub if-absent :
      (b : Bool) (x y : Row)
      → has_key x k ≡ false
      → has_key y k ≡ false
      → has_key (if b then x else y) k ≡ false
  if-absent true x y h1 h2 = h1
  if-absent false x y h1 h2 = h2
