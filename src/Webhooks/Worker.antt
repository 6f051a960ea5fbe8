-- ===== src/Webhooks/Worker.antt =====
-- src/app/workers/schedulers/webhook_delivery_worker.py: the delivery of the outbox. A failure of the
-- database and the waiting between two batches are left out.
pub mod Attempts
pub mod Progress
pub mod Success
use Prim.Native.String.{◌++◌ as str_append}
use python_workflow_service.Prelude.{
  ℕ, zero, suc, ◌+◌, ◌-◌, String, Bool, true, false, not, ◌&&◌, ◌||◌, Option, none, some, List, [],
  ◌∷◌, ◌++◌, ltb, leb, min, if◌then◌else◌, get_or_else, pos,
}
use python_workflow_service.Prelude.Text.{is_empty, decimal}
use python_workflow_service.Value.{Value, null, num, str, truthy, or_default, obj, end}
use python_workflow_service.Value.Dict.{Row, get}
use python_workflow_service.Store.{Db, Result, ok, err}
use python_workflow_service.Crud.WebhookDeliveries
use python_workflow_service.Crud.WebhookDeliveries.{int_column}
use python_workflow_service.Scheduler.Data.{text_of}
use python_workflow_service.Webhooks.{
  Net, Traffic, Check, passed, refused, Reply, answered, failed, escaped,
  validate_outbound_webhook_url, post_webhook,
}

abbrev pub max_attempts : ℕ
max_attempts = 3

abbrev pub backoff_seconds : List ℕ
backoff_seconds = 5 ∷ 30 ∷ []

abbrev pub get_elem? {ℓ} : {A : Type ℓ} → List A → ℕ → Option A
get_elem? [] n = none
get_elem? (x ∷ xs) zero = some x
get_elem? (x ∷ xs) (suc n) = get_elem? xs n

-- `BACKOFF_SECONDS[min(attempt - 1, len(BACKOFF_SECONDS) - 1)]`.
unfoldable pub backoff : ℕ → Option ℕ
backoff attempt = get_elem? backoff_seconds (min (attempt - 1) 1)

-- `200 <= status < 300`.
abbrev pub is_success : ℕ → Bool
is_success status = leb 200 status && ltb status 300

-- What `_post_with_retries` returns.
pub record Attempted : Type 0 where
  pub status : Option ℕ
  pub error : Option String
  pub attempts : ℕ

-- It returns, or an exception escapes.
pub data Tried : Type 0 where
  done : Attempted → Tried
  raised : String → Tried

abbrev pub prior_attempts : Row → ℕ
prior_attempts item = int_column (get item "attempt")

abbrev pub delivered_status : Option ℕ → Bool
delivered_status none = false
delivered_status (some status) = is_success status

-- `if attempt < MAX_ATTEMPTS: await asyncio.sleep(…)`.
unfoldable pub pause : ℕ → Traffic → Traffic
pause attempt s =
    if ltb attempt max_attempts
    then record s { sleeps = s.sleeps ++ get_or_else (backoff attempt) 0 ∷ [] }
    else s

module _ (net : Net) where
  -- `post_webhook` with the fields of a claimed delivery.
  unfoldable pub post_item : Row → Traffic → Reply × Traffic
  post_item item =
      post_webhook net (text_of item "webhook_url")
        (if truthy (get item "secret") then text_of item "secret" else "") (text_of item "event")
        (or_default (get item "request_payload") (obj end))

  -- The loop of `_post_with_retries`, with the rounds left.
  unfoldable pub attempt_from : ℕ → Row → Attempted → Traffic → Tried × Traffic
  attempt_from zero item a s = (done a, s)
  attempt_from (suc rounds) item a s =
      let attempt = a.attempts + 1 in
      let checked = validate_outbound_webhook_url net (text_of item "webhook_url") s in
      elim checked.0 [
        | refused e ↦
            (done (record { status = none; error = some e; attempts = attempt }), checked.1)
        | passed _ ↦
            let sent = post_item item checked.1 in
            elim sent.0 [
              | escaped e ↦ (raised e, sent.1)
              | failed e ↦
                  attempt_from rounds item
                    (record { status = none; error = some e; attempts = attempt })
                    (pause attempt sent.1)
              | answered n ↦
                  let last : Attempted = record {
                    status = some n;
                    error = none;
                    attempts = attempt;
                  } in
                  let rest = attempt_from rounds item last (pause attempt sent.1) in
                  if is_success n then (done last, sent.1) else rest
            ]
      ]

  -- `_post_with_retries`.
  unfoldable pub post_with_retries : Row → Traffic → Tried × Traffic
  post_with_retries item =
      attempt_from (max_attempts - prior_attempts item) item
        (record { status = none; error = none; attempts = prior_attempts item })

-- `error`, once it is filled in for an answer that is not a success.
unfoldable pub error_text : Attempted → Value
error_text a = elim a.error [
  | some e ↦ str e
  | none ↦
      (if delivered_status a.status
        then null
        else str (
            str_append "endpoint returned " (elim a.status [ none ↦ "None" | some n ↦ decimal n ])))
]

abbrev pub status_value : Option ℕ → Value
status_value none = null
status_value (some n) = num (pos n)

pub record World : Type 0 where
  pub db : Db
  pub traffic : Traffic

-- `update_result` with what the attempts gave.
unfoldable pub record_result : Row → Attempted → ℕ → Db → Db
record_result item a duration_ms db =
    (WebhookDeliveries.update_result (text_of item "id") (status_value a.status) (error_text a)
      a.attempts duration_ms (delivered_status a.status) db).1

module _ (net : Net) (duration_ms : Row → ℕ) where
  unfoldable pub finish : Row → Tried → Traffic → Db → Option String × World
  finish item (raised e) s db = (some e, record { db = db; traffic = s })
  finish item (done a) s db =
      if truthy (get item "id")
      then (none, record { db = record_result item a (duration_ms item) db; traffic = s })
      else (none, record { db = db; traffic = s })

  -- `deliver_webhook`, with the exception that escapes from it.
  unfoldable pub deliver_webhook : Row → World → Option String × World
  deliver_webhook item w =
      let tried = post_with_retries net item w.traffic in
      if leb max_attempts (prior_attempts item) then (none, w) else finish item tried.0 tried.1 w.db

  -- The loop of `_process_batch`; `stopping n` is the shutdown event before the n-th item. An
  -- exception ends the batch, and is the first part of the result.
  unfoldable pub deliver_each : (ℕ → Bool) → ℕ → ℕ → List Row → World → (Option String × ℕ) × World
  deliver_each stopping n processed [] w = ((none, processed), w)
  deliver_each stopping n processed (item ∷ items) w =
      let skipped = deliver_each stopping (n + 1) processed items w in
      let result = deliver_webhook item w in
      let going : (Option String × ℕ) × World = elim result.0 [
        | some e ↦ ((some e, processed), result.1)
        | none ↦ deliver_each stopping (n + 1) (processed + 1) items result.1
      ] in
      if stopping n
      then ((none, processed), w)
      else (if truthy (get item "webhook_url") then going else skipped)

-- The rows that the claim gives.
unfoldable pub claimed : Result (List Row) × Db → List Row
claimed (ok rows, db) = rows
claimed (err e, db) = []

module _ (net : Net) (duration_ms : Row → ℕ) where
  -- `_process_batch`: what is claimed by one statement, then delivered item by item.
  unfoldable pub process_batch : (Row → Bool) → ℕ → (ℕ → Bool) → World → (Option String × ℕ) × World
  process_batch locked batch_size stopping w =
      deliver_each net duration_ms stopping 0 0
        (claimed (WebhookDeliveries.claim_pending_batch locked batch_size max_attempts w.db)) w
