-- ===== src/Store/Order.antt =====
-- The ORDER BY clauses of src/app/crud.
use python_workflow_service.Prelude.{ℕ, ◌+◌, ◌*◌, String, Bool, true, false, ◌&&◌, ◌||◌, ltb}
use python_workflow_service.Calendar.{date_ltb, date_eq}
use python_workflow_service.Value.{Value, Instant, null, on, at, py_str, value_eq}
use python_workflow_service.Value.Dict.{Row, get}
use python_workflow_service.Store.{Env}

abbrev pub micros : Instant → ℕ
micros t = ((t.hour * 60 + t.minute) * 60 + t.second) * 1000000 + t.microsecond

unfoldable pub instant_ltb : Instant → Instant → Bool
instant_ltb s t =
    date_ltb s.on_date t.on_date || (date_eq s.on_date t.on_date && ltb (micros s) (micros t))

abbrev pub later : Value → Value → Bool
later (at s) (at t) = instant_ltb t s
later _ _ = false

-- `order_by(Model.created_at.desc())`.
unfoldable pub newer : Row → Row → Bool
unfolding get instant_ltb
newer a b = later (get a "created_at") (get b "created_at")

-- `order_by(Model.created_at.asc())`.
unfoldable pub older : Row → Row → Bool
unfolding get instant_ltb
older a b = later (get b "created_at") (get a "created_at")

-- `order_by(Model.column)` for a column of texts.
unfoldable pub by_text : Env → String → Row → Row → Bool
unfolding get py_str
by_text env column a b = env.collates (py_str (get a column)) (py_str (get b column))

-- `asc().nulls_last()` for a column of dates.
abbrev earlier_date : Value → Value → Bool
earlier_date (on d) (on e) = date_ltb d e
earlier_date (on d) null = true
earlier_date _ _ = false

-- `order_by(WorkOrder.scheduled_date.asc().nulls_last(), WorkOrder.created_at.desc())`.
unfoldable pub by_schedule : Row → Row → Bool
unfolding get newer value_eq
by_schedule a b =
    earlier_date (get a "scheduled_date") (get b "scheduled_date")
    || (value_eq (get a "scheduled_date") (get b "scheduled_date") && newer a b)

-- `order_by(AuditEvent.at.desc())`.
unfoldable pub logged_later : Row → Row → Bool
unfolding get instant_ltb
logged_later a b = later (get a "at") (get b "at")
