-- ===== src/Scheduler/Data.antt =====
-- The data of src/app/business/services/scheduler_service.py: the rows and texts that the scheduler
-- builds, and what it reads from a template and a contract.
use Prim.Native.String.{◌++◌ as str_append}
use python_workflow_service.Prelude.{
  ℕ, String, Bool, false, ◌||◌, Option, none, some, List, [], ◌∷◌, str_eq, any, if◌then◌else◌,
  get_or_else,
}
use python_workflow_service.Prelude.Text.{prefix, lower}
use python_workflow_service.Calendar.{Date, date_ltb, date_max}
use python_workflow_service.Calendar.Iso.{isoformat, fromisoformat}
use python_workflow_service.Value.{
  Value, null, bool, str, on, seq, nil, items_of, or_default, py_str,
}
use python_workflow_service.Value.Dict.{Row, get}
use python_workflow_service.Events.{Event}
use python_workflow_service.Schedule.{next_occurrence, parse_d, visit_frequency}

-- `value in existing`, for a set of texts.
abbrev pub has_text : List String → String → Bool
has_text existing s = any (λ t. str_eq t s) existing

-- The `created`, `cancelled` and `skipped` of a run.
pub record Counts : Type 0 where
  pub created : ℕ
  pub cancelled : ℕ
  pub skipped : ℕ

-- The variables of the loop of `_generate_for_contract`.
pub record Tally : Type 0 where
  pub created : ℕ
  pub skipped : ℕ
  pub next_future : Option Date

-- `if visit > today and next_future is None: next_future = visit`.
unfoldable pub note_future : Date → Date → Option Date → Option Date
note_future today visit (some d) = some d
note_future today visit none = if date_ltb today visit then some visit else none

abbrev pub text_of : Row → String → String
text_of r k = py_str (get r k)

-- `f"{freq} visit — {title} ({visit.isoformat()})"`.
unfoldable pub visit_title : Row → Date → String
visit_title contract visit = str_append (visit_frequency contract) (
    str_append " visit — "
      (str_append (text_of contract "title") (str_append " (" (str_append (isoformat visit) ")"))))

-- The event that the scheduler records for a work order that it created.
unfoldable pub created_event : Row → String → String → Event
created_event record' tenant_id project_id = record {
  entity = "work_order";
  action = "created";
  subject = record';
  changes = [];
  actor = none;
  source = "scheduler";
  tenant_id = some tenant_id;
  project_id = some project_id;
}

-- The data of `_build_work_order`, from the hash of the token and the timeline's first event.
unfoldable pub visit_data : Row → Date → String → Value → Row
visit_data contract visit token_hash event =
    ("title", str (prefix 256 (visit_title contract visit)))
    ∷ ("description", get contract "scope_included")
    ∷ ("asset_ids", or_default (get contract "asset_ids") (seq nil))
    ∷ ("contract_id", get contract "id")
    ∷ ("vendor_id", get contract "vendor_id")
    ∷ ("form_template_id", get contract "form_template_id")
    ∷ ("state", str "upcoming")
    ∷ ("priority", str "medium")
    ∷ ("source", str "contract")
    ∷ ("scheduled_date", on visit)
    ∷ ("vendor_token_hash", str token_hash)
    ∷ ("timeline", seq (items_of (event ∷ [])))
    ∷ []

-- The data of an instance of a recurring template.
unfoldable pub instance_data : Row → Date → String → Value → Row
instance_data template next_date token_hash event =
    (
      "title",
      str (
          prefix 256
            (str_append (text_of template "title") (str_append " — " (isoformat next_date)))),
    )
    ∷ ("description", get template "description")
    ∷ ("asset_ids", or_default (get template "asset_ids") (seq nil))
    ∷ ("contract_id", get template "contract_id")
    ∷ ("vendor_id", get template "vendor_id")
    ∷ ("form_template_id", get template "form_template_id")
    ∷ ("state", str "upcoming")
    ∷ ("priority", or_default (get template "priority") (str "medium"))
    ∷ ("source", or_default (get template "source") (str "ad_hoc"))
    ∷ ("scheduled_date", on next_date)
    ∷ ("assignee", get template "assignee")
    ∷ ("access_notes", get template "access_notes")
    ∷ ("is_recurring", bool false)
    ∷ ("recurring_parent_id", get template "id")
    ∷ ("vendor_token_hash", str token_hash)
    ∷ ("timeline", seq (items_of (event ∷ [])))
    ∷ []

-- `max((_parse_d(d) for d in existing), default=None)`. The texts were written by `isoformat`, so
-- all of them are read back.
unfoldable pub latest : List String → Option Date
latest [] = none
latest (s ∷ ss) =
    let rest = latest ss in
    elim (fromisoformat s) [
      | none ↦ rest
      | some d ↦ elim rest [ none ↦ some d | some e ↦ some (date_max d e) ]
    ]

-- The date that the next occurrence of a template is counted from.
unfoldable pub occurrence_anchor : Row → List String → Date → Date
occurrence_anchor template existing today =
    let anchor =
      get_or_else (parse_d (get template "scheduled_date"))
        (get_or_else (parse_d (get template "started_at")) today) in
    date_max anchor (get_or_else (latest existing) today)

unfoldable pub template_next_date : Row → List String → Date → Date
template_next_date template existing today =
    next_occurrence (occurrence_anchor template existing today)
      (py_str (or_default (get template "recurring_frequency") (str "weekly")))
      (or_default (get template "recurring_days") (seq nil))

-- `(contract.get("status") or "").lower()`.
unfoldable pub contract_status : Row → String
contract_status contract = lower (py_str (or_default (get contract "status") (str "")))

-- `status in TERMINAL_STATUSES`.
abbrev pub is_terminal : String → Bool
is_terminal status = str_eq status "terminated" || str_eq status "expired"

abbrev pub date_or_null : Option Date → Value
date_or_null none = null
date_or_null (some d) = on d
