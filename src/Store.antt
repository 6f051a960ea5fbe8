-- ===== src/Store.antt =====
-- The database and what the services read from outside, as explicit state. `Db` holds the rows of
-- each table that is modelled, how often this session holds the scheduler's advisory lock, and counts
-- the reads from outside; `Env` answers them (the clock, uuids, secrets, SHA-256, and whether
-- PostgreSQL grants the lock). An action returns its result or its exception beside the new state:
-- what was written before a raise is in the session until the caller rolls back.
pub mod Query
pub mod Laws
pub mod Search
pub mod Order
pub mod Paging
pub mod Newest
pub mod View
pub mod Outside
use python_workflow_service.Prelude.{
  ℕ, ◌+◌, String, Bool, true, false, Option, none, some, List, [], ◌∷◌, ◌==◌, if◌then◌else◌,
}
use python_workflow_service.Value.{Instant}
use python_workflow_service.Value.Dict.{Row}

pub data Table : Type 0 where
  contracts work_orders invoices payments audit_events triggers webhook_deliveries : Table
  assets asset_categories form_templates api_keys custom_fields business_profile pdf_templates
        api_call_logs :
      Table

abbrev pub code : Table → ℕ
code contracts = 0
code work_orders = 1
code invoices = 2
code payments = 3
code audit_events = 4
code triggers = 5
code webhook_deliveries = 6
code assets = 7
code asset_categories = 8
code form_templates = 9
code api_keys = 10
code custom_fields = 11
code business_profile = 12
code pdf_templates = 13
code api_call_logs = 14

abbrev pub same_table : Table → Table → Bool
same_table t u = code t == code u

pub record Db : Type 0 where
  pub rows : Table → List Row
  pub reads : ℕ
  pub locks : ℕ

abbrev pub put_rows : Table → List Row → Db → Db
put_rows t rs db = record db { rows = λ u. if same_table t u then rs else db.rows u }

-- What the standard library and the system give at the n-th read; `collates` is whether the database
-- sorts a text before another.
pub record Env : Type 0 where
  pub now : ℕ → Instant
  pub uuid_hex : ℕ → String
  pub uuid_text : ℕ → String
  pub token_urlsafe : ℕ → String
  pub sha256_hex : String → String
  pub lock_granted : ℕ → Bool
  pub collates : String → String → Bool

-- An entry of `exc.errors()`.
pub record Invalid : Type 0 where
  pub error_type : String
  pub loc : List String
  pub msg : String

-- The exceptions of src/app/core/exceptions/http_exceptions.py with their message keys, and SQLAlchemy's
-- `IntegrityError` with the name of the constraint; `statement` is its `DBAPIError` for a statement that
-- PostgreSQL has refused otherwise, which aborts the transaction; `model_error` is pydantic's
-- `ValidationError`, `bad_request` is FastAPI's `HTTPException` with status 400 and a detail, and
-- `other` is any other exception, with its text.
pub data Error : Type 0 where
  not_found validation unauthorized duplicate_value integrity statement value_error bad_request
        other :
      String → Error
  model_error : List Invalid → Error

-- The transaction of the session: a statement that PostgreSQL has refused aborts it, and COMMIT then
-- rolls back without an exception; after a failed flush SQLAlchemy refuses to commit.
pub data Transaction : Type 0 where
  sound : Transaction
  aborted : Transaction
  broken : Transaction

-- The transaction after an exception.
unfoldable pub transaction_after : Error → Transaction
transaction_after (integrity constraint) = broken
transaction_after (statement text) = aborted
transaction_after e = sound

pub data Result {ℓ} (A : Type ℓ) : Type ℓ where
  ok : A → Result A
  err : Error → Result A

abbrev pub Action {ℓ} : Type ℓ → Type ℓ
Action A = Db → Result A × Db

module _ {ℓ} {A : Type ℓ} where
  abbrev pub pure : A → Action A
  pure a db = (ok a, db)

  abbrev pub raise : Error → Action A
  raise e db = (err e, db)

  abbrev pub gets : (Db → A) → Action A
  gets f db = (ok (f db), db)

  -- A read from outside.
  abbrev pub fresh : (ℕ → A) → Action A
  fresh f db = (ok (f db.reads), record db { reads = db.reads + 1 })

  abbrev pub or_raise : Option A → Error → Action A
  or_raise none e = raise e
  or_raise (some a) _ = pure a

  abbrev pub when_ok : {B : Type 0} → Result B × Db → (B → Action A) → Result A × Db
  when_ok (ok b, db) f = f b db
  when_ok (err e, db) f = (err e, db)

infixl 5 ◌>>=◌ ◌>>◌
abbrev pub ◌>>=◌ : {A B : Type 0} → Action A → (A → Action B) → Action B
◌>>=◌ m f db = when_ok (m db) f

abbrev pub ◌>>◌ : {A B : Type 0} → Action A → Action B → Action B
m >> k = m >>= λ _. k

abbrev pub skip : Action (Unit {0})
skip = pure tt
