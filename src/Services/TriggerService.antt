-- ===== src/Services/TriggerService.antt =====
-- `class TriggerService` of src/app/business/services/trigger_service.py, and `test_trigger` of
-- src/app/business/services/events_service.py, over the database and the traffic with the endpoints.
pub mod Safety
use Prim.Native.String.{◌++◌ as str_append}
use python_workflow_service.Prelude.{
  ℕ, ◌+◌, String, Bool, true, false, ◌&&◌, Option, none, some, List, [], ◌∷◌, pos, str_eq,
  if◌then◌else◌,
}
use python_workflow_service.Prelude.Text.{is_empty, decimal}
use python_workflow_service.Value.{
  Value, null, bool, num, str, seq, obj, nil, end, is_none, py_str, instant_isoformat, or_default,
}
use python_workflow_service.Value.Dict.{Row, get, fields_of}
use python_workflow_service.Store.{
  Db, Env, Action, Result, ok, err, Error, validation, value_error, other, triggers, pure, raise,
  or_raise, fresh, ◌>>=◌, ◌>>◌,
}
use python_workflow_service.Crud.Triggers
use python_workflow_service.Crud.WebhookDeliveries
use python_workflow_service.Events.{optional_text}
use python_workflow_service.Services.{Scope, missing_record, get_record, plain}
use python_workflow_service.Scheduler.Data.{text_of}
use python_workflow_service.Webhooks.{
  Net, Traffic, Check, passed, refused, Reply, answered, failed, escaped,
  validate_outbound_webhook_url, post_webhook,
}
use python_workflow_service.Webhooks.Worker.{World, is_success}

unfoldable pub prepare_payload : Row → Row
prepare_payload [] = []
prepare_payload ((key, value) ∷ data') =
    let rest = prepare_payload data' in if is_none value then rest else (key, plain value) ∷ rest

-- `list`.
unfoldable pub list : Env → Scope → Action (List Row)
list env s = Triggers.list env s.tenant_id s.project_id

-- The exception of the guard: its own has the text `net.invalid`, a URL that is not parsed is a
-- `ValueError`.
unfoldable pub refusal : Net → String → Error
refusal net e = if str_eq e net.invalid then validation "errors.validation" else value_error e

-- A step of the database after a guard, or the guard's exception.
unfoldable pub guarded {ℓ} : {A : Type ℓ} → Net → Check → Action A → Action A
guarded net (refused e) act = raise (refusal net e)
guarded net (passed cleaned) act = act

-- The database's part of a step in the world.
abbrev pub in_world {ℓ} : {A : Type ℓ} → Action A → Traffic → Db → Result A × World
in_world act s db = ((act db).0, record { db = (act db).1; traffic = s })

module _ (net : Net) (env : Env) (s : Scope) where
  unfoldable pub create : Row → World → Result Row × World
  create data' w =
      let checked = validate_outbound_webhook_url net (text_of data' "webhook_url") w.traffic in
      in_world
        (guarded net checked.0
          (Triggers.create env s.tenant_id s.project_id (prepare_payload data')))
        checked.1 w.db

  -- The part of `update` after the guard.
  unfoldable pub write : String → Row → Action Row
  write entity_id [] = get_record triggers s entity_id
  write entity_id (entry ∷ entries) = do
    updated ← Triggers.update env s.tenant_id s.project_id entity_id (entry ∷ entries)
    or_raise updated missing_record

  unfoldable pub update : String → Row → World → Result Row × World
  update entity_id data' w =
      let checked = validate_outbound_webhook_url net (text_of data' "webhook_url") w.traffic in
      let act = write entity_id (prepare_payload data') in
      if is_none (get data' "webhook_url")
      then in_world act w.traffic w.db
      else in_world (guarded net checked.0 act) checked.1 w.db

  unfoldable pub delete : String → Action String
  delete entity_id = do
    deleted ← Triggers.soft_delete env s.tenant_id s.project_id entity_id
    (if deleted then pure entity_id else raise missing_record)

-- The outcome of a POST for the log: the status, and the text of an `httpx.HTTPError`.
abbrev pub reply_status : Reply → Value
reply_status (answered n) = num (pos n)
reply_status _ = null

abbrev pub reply_delivered : Reply → Bool
reply_delivered (answered n) = is_success n
reply_delivered _ = false

abbrev pub reply_error : Reply → Value
reply_error (answered n) =
    if is_success n then null else str (str_append "endpoint returned " (decimal n))
reply_error (failed e) = str (if is_empty e then "endpoint returned None" else e)
reply_error (escaped e) = str e

-- The error of the result, which is that of the POST alone.
abbrev pub post_error : Reply → Value
post_error (failed e) = str e
post_error _ = null

unfoldable pub test_delivery : Row → Value → Reply → ℕ → Row
test_delivery trigger payload reply duration_ms =
    ("tenant_id", get trigger "tenant_id")
    ∷ ("project_id", get trigger "project_id")
    ∷ ("trigger_id", get trigger "id")
    ∷ ("entity", get trigger "entity")
    ∷ ("entity_id", str "test")
    ∷ ("event", str (str_append (text_of trigger "entity") ".test"))
    ∷ ("request_payload", payload)
    ∷ ("response_status", reply_status reply)
    ∷ ("error", reply_error reply)
    ∷ ("attempt", num (pos 1))
    ∷ ("duration_ms", num (pos duration_ms))
    ∷ ("delivered", bool (reply_delivered reply))
    ∷ []

unfoldable pub test_result : Reply → ℕ → Row
test_result reply duration_ms =
    ("delivered", bool (reply_delivered reply))
    ∷ ("status", reply_status reply)
    ∷ ("error", post_error reply)
    ∷ ("duration_ms", num (pos duration_ms))
    ∷ []

module _ (net : Net) (env : Env) (duration_ms : ℕ) where
  -- The payload of `test_trigger`.
  unfoldable pub test_payload : Row → Option String → Action Value
  test_payload trigger actor = do
    id ← fresh env.uuid_text
    now ← fresh env.now
    pure (
        obj (
          fields_of (
            ("id", str id)
            ∷ ("at", str (instant_isoformat now))
            ∷ ("entity", get trigger "entity")
            ∷ ("entity_id", str "test")
            ∷ ("entity_label", str "Test event")
            ∷ ("action", str "test")
            ∷ ("actor", optional_text actor)
            ∷ ("source", str "fm")
            ∷ ("changes", seq nil)
            ∷ ("snapshot", obj (fields_of (("note", str "Test event from triggers page.") ∷ [])))
            ∷ [])))

  -- What `test_trigger` logs and returns after the POST.
  unfoldable pub log_test : Row → Value → Reply → Action Row
  log_test trigger payload (escaped e) =
      raise (if str_eq e net.invalid then validation "errors.validation" else other e)
  log_test trigger payload reply = do
    WebhookDeliveries.create env (test_delivery trigger payload reply duration_ms)
    pure (test_result reply duration_ms)

  -- `test_trigger` after the guard.
  unfoldable pub post_test : Row → Result Value × Db → Traffic → Result Row × World
  post_test trigger (err e, db) s = (err e, record { db = db; traffic = s })
  post_test trigger (ok payload, db) s =
      let posted =
        post_webhook net (text_of trigger "webhook_url")
          (py_str (or_default (get trigger "secret") (str "")))
          (str_append (text_of trigger "entity") ".test") payload s in
      in_world (log_test trigger payload posted.0) posted.1 db

  unfoldable pub test_trigger : Row → Option String → World → Result Row × World
  test_trigger trigger actor w =
      let checked = validate_outbound_webhook_url net (text_of trigger "webhook_url") w.traffic in
      elim checked.0 [
        | refused e ↦ (err (refusal net e), record { db = w.db; traffic = checked.1 })
        | passed cleaned ↦ post_test trigger (test_payload trigger actor w.db) checked.1
      ]

  unfoldable pub test_found : Result Row × Db → Option String → Traffic → Result Row × World
  test_found (err e, db) actor s = (err e, record { db = db; traffic = s })
  test_found (ok trigger, db) actor s = test_trigger trigger actor (record { db = db; traffic = s })

  -- `test`.
  unfoldable pub test : Scope → String → Option String → World → Result Row × World
  test s entity_id actor w = test_found (get_record triggers s entity_id w.db) actor w.traffic
