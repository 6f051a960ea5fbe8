-- ===== src/Events.antt =====
-- src/app/business/services/events_service.py: the audit trail and the outbox of webhooks, but
-- not `test_trigger`.
pub mod Laws
pub mod Outside
use Prim.Native.String.{◌++◌ as str_append}
use python_workflow_service.Prelude.{
  String, Bool, true, false, not, ◌&&◌, ◌||◌, Option, none, some, List, [], ◌∷◌, map, str_eq,
  if◌then◌else◌, any,
}
use python_workflow_service.Prelude.Text.{prefix, is_empty}
use python_workflow_service.Value.{
  Value, null, bool, str, seq, obj, items_of, truthy, py_str, value_eq, instant_isoformat,
}
use python_workflow_service.Value.Dict.{Row, get, fields_of}
use python_workflow_service.Value.Safe.{deep_safe, snapshot_record}
use python_workflow_service.Store.{Env, Action, pure, fresh, skip, ◌>>=◌, ◌>>◌}
use python_workflow_service.Crud.AuditEvents
use python_workflow_service.Crud.Triggers
use python_workflow_service.Crud.WebhookDeliveries

-- An entry of `diff_records`.
pub record Change : Type 0 where
  pub field_name : String
  pub old : Value
  pub new : Value

-- The dict of an entry.
unfoldable pub change_value : Change → Value
change_value c =
    obj (fields_of (("field", str c.field_name) ∷ ("old", c.old) ∷ ("new", c.new) ∷ []))

-- `diff_records`, with its default `skip`.
unfoldable pub diff_records : Row → Row → List Change
unfolding get value_eq deep_safe
diff_records before [] = []
diff_records before ((name, new) ∷ after) =
    let rest = diff_records before after in
    let old = get before name in
    if str_eq name "updated_at" || value_eq old new
    then rest
    else record { field_name = name; old = deep_safe old; new = deep_safe new } ∷ rest

-- The loop of `entity_label`, over the attributes left.
unfoldable pub label_from : List String → Row → Value
unfolding get py_str
label_from [] record' = null
label_from (attr ∷ attrs) record' =
    let rest = label_from attrs record' in
    if truthy (get record' attr) then str (prefix 256 (py_str (get record' attr))) else rest

unfoldable pub entity_label : Row → Value
unfolding label_from
entity_label = label_from ("title" ∷ "name" ∷ "invoice_number" ∷ "label" ∷ [])

-- `change["field"] in ("state", "status")`.
abbrev pub changes_state : Change → Bool
changes_state c = str_eq c.field_name "state" || str_eq c.field_name "status"

unfoldable pub event_for : String → List Change → String
event_for action changes =
    if str_eq action "updated" && any changes_state changes then "status_changed" else action

-- `source if source in VALID_SOURCES else AuditSource.FM.value`.
unfoldable pub safe_source : String → String
safe_source source =
    if str_eq source "fm"
      || str_eq source "vendor_portal"
      || str_eq source "scheduler"
      || str_eq source "api"
    then source
    else "fm"

abbrev pub optional_text : Option String → Value
optional_text none = null
optional_text (some s) = str s

-- `tenant_id or record.get("tenant_id")`, as a text: "" where there is none.
unfoldable pub scope_text : Option String → Value → String
unfolding py_str
scope_text none v = if truthy v then py_str v else ""
scope_text (some s) v = if is_empty s then (if truthy v then py_str v else "") else s

-- The arguments of `record_and_dispatch`; `changes` is empty for `None`.
pub record Event : Type 0 where
  pub entity : String
  pub action : String
  pub subject : Row
  pub changes : List Change
  pub actor : Option String
  pub source : String
  pub tenant_id : Option String
  pub project_id : Option String

unfoldable pub audit_data : Event → String → String → Row
unfolding get entity_label snapshot_record change_value safe_source
audit_data e org_id proj_id =
    ("tenant_id", str org_id)
    ∷ ("project_id", str proj_id)
    ∷ ("entity", str e.entity)
    ∷ ("entity_id", get e.subject "id")
    ∷ ("entity_label", entity_label e.subject)
    ∷ ("action", str e.action)
    ∷ ("actor", optional_text e.actor)
    ∷ ("source", str (safe_source e.source))
    ∷ ("changes", seq (items_of (map change_value e.changes)))
    ∷ ("snapshot", obj (fields_of (snapshot_record e.subject)))
    ∷ []

unfoldable pub delivery_data : Event → String → String → String → Value → Row → Row
unfolding get
delivery_data e org_id proj_id event payload trigger =
    ("tenant_id", str org_id)
    ∷ ("project_id", str proj_id)
    ∷ ("trigger_id", get trigger "id")
    ∷ ("entity", str e.entity)
    ∷ ("entity_id", get e.subject "id")
    ∷ ("event", str (str_append e.entity (str_append "." event)))
    ∷ ("request_payload", payload)
    ∷ ("delivered", bool false)
    ∷ []

module _ (env : Env) where
  -- The payload that all deliveries of an event share.
  unfoldable pub event_payload : Event → Action Value
  unfolding get entity_label snapshot_record change_value safe_source deep_safe instant_isoformat
  event_payload e = do
    id ← fresh env.uuid_text
    now ← fresh env.now
    pure (
        obj (
          fields_of (
            ("id", str id)
            ∷ ("at", str (instant_isoformat now))
            ∷ ("entity", str e.entity)
            ∷ ("entity_id", get e.subject "id")
            ∷ ("entity_label", entity_label e.subject)
            ∷ ("action", str e.action)
            ∷ ("actor", optional_text e.actor)
            ∷ ("source", str (safe_source e.source))
            ∷ ("changes", deep_safe (seq (items_of (map change_value e.changes))))
            ∷ ("snapshot", obj (fields_of (snapshot_record e.subject)))
            ∷ [])))

  -- The loop of `record_and_dispatch` over the matching triggers.
  unfoldable pub enqueue : Event → String → String → String → Value → List Row → Action (Unit {0})
  unfolding delivery_data WebhookDeliveries.create
  enqueue e org_id proj_id event payload [] = skip
  enqueue e org_id proj_id event payload (trigger ∷ rest) = do
    WebhookDeliveries.create env (delivery_data e org_id proj_id event payload trigger)
    enqueue e org_id proj_id event payload rest

  unfoldable pub dispatch : Event → String → String → String → List Row → Action (Unit {0})
  unfolding event_payload enqueue
  dispatch e org_id proj_id event [] = skip
  dispatch e org_id proj_id event (trigger ∷ rest) = do
    payload ← event_payload e
    enqueue e org_id proj_id event payload (trigger ∷ rest)

  -- The rest of `record_and_dispatch`, once the tenant and the project are known.
  unfoldable pub record_in_scope : Event → String → String → Action (Unit {0})
  unfolding audit_data event_for AuditEvents.create Triggers.list_matching_triggers dispatch
  record_in_scope e org_id proj_id = do
    AuditEvents.create env (audit_data e org_id proj_id)
    let event = event_for e.action e.changes
    matching ← Triggers.list_matching_triggers org_id proj_id e.entity event
    dispatch e org_id proj_id event matching

  -- `record["id"]` is read as null where there is none; the callers all pass a row of a table or the
  -- dict of one, which has its id, so that the KeyError of a record without one is not modelled.
  unfoldable pub record_and_dispatch : Event → Action (Unit {0})
  unfolding scope_text record_in_scope get
  record_and_dispatch e =
      let org_id = scope_text e.tenant_id (get e.subject "tenant_id") in
      let proj_id = scope_text e.project_id (get e.subject "project_id") in
      if is_empty org_id || is_empty proj_id then skip else record_in_scope e org_id proj_id
