-- ===== src/Crud/WorkOrders.antt =====
-- src/app/crud/crud_work_orders.py.
use python_workflow_service.Prelude.{
  ℕ, ◌+◌, String, Bool, true, ◌&&◌, Option, none, some, List, [], ◌∷◌, if◌then◌else◌,
}
use python_workflow_service.Prelude.Text.{prefix, is_empty}
use python_workflow_service.Value.{Value, Instant, str, at, truthy, is_none, py_str}
use python_workflow_service.Value.Dict.{Row, get, merge}
use python_workflow_service.Timeline.{new_timeline_event, append_event}
use python_workflow_service.Models.{work_order_defaults}
use python_workflow_service.Store.{Env, Action, work_orders, pure, gets, fresh, ◌>>=◌, ◌>>◌}
use python_workflow_service.Store.Order.{by_schedule}
use python_workflow_service.Store.Query
use python_workflow_service.Store.Query.{
  column_is, column_is_not, is_active, update_where, count_where, select_all, select_one,
  execute_update, list_page,
}

-- The WHERE clause of `list`.
unfoldable pub listed : String → String → String → Row → Bool
unfolding get
listed tenant_id project_id state r =
    column_is r "tenant_id" tenant_id
    && column_is r "project_id" project_id
    && is_active r
    && (if is_empty state then true else column_is r "state" state)

unfoldable pub list : String → String → ℕ → ℕ → String → Action (List Row × ℕ)
unfolding listed list_page by_schedule
list tenant_id project_id page page_size state =
    list_page work_orders (listed tenant_id project_id state) by_schedule page page_size

unfoldable pub get_by_id : String → String → String → Action (Option Row)
unfolding Query.get_by_id
get_by_id = Query.get_by_id work_orders

unfoldable pub get_by_vendor_token_hash : String → Action (Option Row)
unfolding select_one get
get_by_vendor_token_hash token_hash =
    select_one work_orders (λ r. column_is r "vendor_token_hash" token_hash && is_active r)

-- The work orders that a contract's schedule has used up.
unfoldable pub uses_schedule : String → Row → Bool
unfolding get
uses_schedule contract_id r =
    column_is r "contract_id" contract_id
    && column_is r "source" "contract"
    && column_is_not r "state" "terminated"
    && is_active r

-- `{str(row[0])[:10] for row in result.all() if row[0]}`: a set, read by membership only.
unfoldable pub schedule_dates : (Row → Bool) → List Row → List String
unfolding get py_str
schedule_dates p [] = []
schedule_dates p (r ∷ rs) =
    let rest = schedule_dates p rs in
    if p r && truthy (get r "scheduled_date")
    then prefix 10 (py_str (get r "scheduled_date")) ∷ rest
    else rest

unfoldable pub existing_contract_schedule_dates : String → Action (List String)
unfolding schedule_dates uses_schedule
existing_contract_schedule_dates contract_id =
    gets (λ db. schedule_dates (uses_schedule contract_id) (db.rows work_orders))

-- The work orders that `cancel_contract_work_orders` terminates.
unfoldable pub is_pending : String → Row → Bool
unfolding get
is_pending contract_id r =
    column_is r "contract_id" contract_id
    && column_is r "source" "contract"
    && column_is r "state" "upcoming"
    && is_active r

abbrev pub terminate : Instant → Row → Row
terminate now r = merge r (("state", str "terminated") ∷ ("updated_at", at now) ∷ [])

-- The children that `cancel_recurring_children` terminates.
unfoldable pub is_upcoming_child : String → Row → Bool
unfolding get
is_upcoming_child template_id r =
    column_is r "recurring_parent_id" template_id
    && column_is r "state" "upcoming"
    && is_none (get r "started_at")
    && is_active r

unfoldable pub is_child : String → Row → Bool
unfolding get
is_child template_id r =
    column_is r "recurring_parent_id" template_id
    && column_is_not r "state" "terminated"
    && is_active r

unfoldable pub recurring_child_dates : String → Action (List String)
unfolding schedule_dates is_child
recurring_child_dates template_id =
    gets (λ db. schedule_dates (is_child template_id) (db.rows work_orders))

unfoldable pub is_template : Option String → Row → Bool
unfolding get
is_template tenant_id r =
    truthy (get r "is_recurring")
    && column_is_not r "state" "terminated"
    && is_active r
    && elim tenant_id [
      | none ↦ true
      | some t ↦ (if is_empty t then true else column_is r "tenant_id" t)
    ]

unfoldable pub list_recurring_templates : Option String → Action (List Row)
unfolding is_template select_all
list_recurring_templates tenant_id = select_all work_orders (is_template tenant_id)

module _ (env : Env) where
  unfoldable pub create : String → String → Row → Action Row
  unfolding Query.create work_order_defaults
  create = Query.create env work_orders "work_order" work_order_defaults

  unfoldable pub update : String → String → String → Row → Action (Option Row)
  unfolding Query.update
  update = Query.update env work_orders

  unfoldable pub soft_delete : String → String → String → Action Bool
  unfolding Query.soft_delete
  soft_delete = Query.soft_delete env work_orders

  unfoldable pub append_timeline : String → String → String → Row → Action (Option Value)
  unfolding get_by_id update new_timeline_event append_event get
  append_timeline tenant_id project_id entity_id event = do
    record' ← get_by_id tenant_id project_id entity_id
    elim record' [
      | none ↦ pure none
      | some r ↦ do
        entry ← new_timeline_event env event
        updated ←
            update tenant_id project_id entity_id
              (("timeline", append_event (get r "timeline") entry) ∷ [])
        pure (elim updated [ none ↦ none | some u ↦ some (get u "timeline") ])
    ]

  -- Terminates the upcoming work orders of a contract, and counts them.
  unfoldable pub cancel_contract_work_orders : String → Action ℕ
  unfolding update_where count_where is_pending merge
  cancel_contract_work_orders contract_id = do
    now ← fresh env.now
    count ← gets (λ db. count_where (is_pending contract_id) (db.rows work_orders))
    execute_update work_orders (is_pending contract_id) (terminate now)
    pure count

  -- The loop of `cancel_recurring_children` over the rows that it selected.
  unfoldable pub cancel_each : Value → List Row → ℕ → Action ℕ
  unfolding update_where merge get append_event
  cancel_each event [] count = pure count
  cancel_each event (row ∷ rows) count = do
    now ← fresh env.now
    execute_update work_orders (λ r. column_is r "id" (py_str (get row "id")))
        (λ r. merge r (
          ("state", str "terminated")
          ∷ ("timeline", append_event (get row "timeline") event)
          ∷ ("updated_at", at now)
          ∷ []))
    cancel_each event rows (count + 1)

  unfoldable pub cancel_recurring_children : String → String → Action ℕ
  unfolding cancel_each is_upcoming_child select_all new_timeline_event
  cancel_recurring_children template_id note = do
    rows ← select_all work_orders (is_upcoming_child template_id)
    elim rows [
      | [] ↦ pure 0
      | row ∷ others ↦ do
        event ←
            new_timeline_event env
              (("type", str "status_changed") ∷ ("by", str "Scheduler") ∷ ("note", str note) ∷ [])
        cancel_each event (row ∷ others) 0
    ]

  unfoldable pub update_recurring_next_date : String → Value → Action (Unit {0})
  unfolding update_where merge get
  update_recurring_next_date work_order_id next_date = do
    now ← fresh env.now
    execute_update work_orders (λ r. column_is r "id" work_order_id)
        (λ r. merge r (("recurring_next_date", next_date) ∷ ("updated_at", at now) ∷ []))
