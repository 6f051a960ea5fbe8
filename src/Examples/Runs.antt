-- ===== src/Examples/Runs.antt =====
-- The theorems on the store, the scheduler and the services, at the example's data.
use python_workflow_service.Prelude.{◌+◌, ◌≡◌, refl, true, false, Option, none, [], ◌∷◌}
use python_workflow_service.Value.{str, py_str}
use python_workflow_service.Value.Dict.{Row, get, has_key}
use python_workflow_service.Store.{Db, ok, work_orders, contracts}
use python_workflow_service.Store.Query.{in_scope, count_where, update, get_by_id}
use python_workflow_service.Store.Laws.{Isolated, update-get_by_id}
use python_workflow_service.Crud.WorkOrders.{is_pending, cancel_contract_work_orders}
use python_workflow_service.Events.{Event, scope_text, record_and_dispatch}
use python_workflow_service.Events.Laws.{Recorded, record_and_dispatch-Recorded}
use python_workflow_service.Scheduler.{generate_for_contract, recompute_contract}
use python_workflow_service.Scheduler.Data.{Tally, Counts, created_event, contract_status}
use python_workflow_service.Scheduler.Generation.Repeat.{
  Run, generate_for_contract-Run, generate_for_contract_idempotent,
}
use python_workflow_service.Scheduler.Recompute.{
  cancel_contract_work_orders_lem, recompute_contract-cancels, Cancelled,
}
use python_workflow_service.Services.VendorPortal.{
  is_allowed, Keeps, update_work_order, update_work_order-Keeps, Untouched,
}
use python_workflow_service.Services.{Scope}
use python_workflow_service.Services.WorkOrderService.{get_by_vendor_token}
use python_workflow_service.Services.WorkOrderService.VendorAccess.{
  Answers, get_by_vendor_token_lem,
}
use python_workflow_service.Services.ContractService.{delete}
use python_workflow_service.Services.ContractService.Deletion.{delete_lem}
use python_workflow_service.Examples.{today, env, contract, ended_contract, work_order, db}

-- One visit is due, the 1st of February, and it is the next one too.
generate_for_contract-Run_example :
    (t : Tally) × (db' : Db) × (generate_for_contract env contract today db ≡ (ok t, db'))
    × Run "c1" contract today t db db'
unfolding get
generate_for_contract-Run_example = generate_for_contract-Run env contract today "c1" refl db

generate_for_contract_idempotent_example :
    (t : Tally) × (db₁ : Db) × (u : Tally) × (db₂ : Db) × (generate_for_contract env contract today
        db
      ≡ (ok t, db₁))
    × (generate_for_contract env contract today db₁ ≡ (ok u, db₂))
    × (u.created ≡ 0)
    × (u.skipped ≡ t.created + t.skipped)
    × (u.next_future ≡ t.next_future)
    × (db₂.rows work_orders ≡ db₁.rows work_orders)
unfolding get
generate_for_contract_idempotent_example =
    generate_for_contract_idempotent env contract today "c1" refl db

abbrev event : Event
event = created_event work_order "t1" "p1"

record_and_dispatch-Recorded_example :
    (db' : Db) × (record_and_dispatch env event db ≡ (ok tt, db')) × Recorded event "t1" "p1" db db'
unfolding created_event get scope_text
record_and_dispatch-Recorded_example = record_and_dispatch-Recorded env event db refl refl

cancel_contract_work_orders_lem_example :
    (db' : Db) × (cancel_contract_work_orders env "c1" db
      ≡ (ok (count_where (is_pending "c1") (db.rows work_orders)), db'))
    × (count_where (is_pending "c1") (db'.rows work_orders) ≡ 0)
    × Isolated work_orders (is_pending "c1") db db'
    × Cancelled "c1" (db.rows work_orders) (db'.rows work_orders)
cancel_contract_work_orders_lem_example = cancel_contract_work_orders_lem env "c1" db

recompute_contract-cancels_example :
    (db' : Db) × (counts : Counts) × (recompute_contract env ended_contract false true db
      ≡ (ok counts, db'))
    × (counts.created ≡ 0)
    × (counts.cancelled ≡ count_where (is_pending "c1") (db.rows work_orders))
    × (count_where (is_pending "c1") (db'.rows work_orders) ≡ 0)
    × Isolated work_orders (is_pending "c1") db db'
    × Cancelled "c1" (db.rows work_orders) (db'.rows work_orders)
unfolding get contract_status py_str
recompute_contract-cancels_example =
    recompute_contract-cancels env ended_contract false true db refl

update-get_by_id_example :
    (db' : Db) × (found : Option Row) × (update env contracts "t1" "p1" "c1"
        (("title", str "Pumps") ∷ [])
        db
      ≡ (ok found, db'))
    × (get_by_id contracts "t1" "p1" "c1" db' ≡ (ok found, db'))
unfolding has_key
update-get_by_id_example =
    update-get_by_id env contracts "t1" "p1" "c1" (("title", str "Pumps") ∷ []) db refl refl refl
      refl

abbrev scope : Scope
scope = record { tenant_id = "t1"; project_id = "p1" }

-- A vendor who names a vendor of its own does not change it.
abbrev forged : Row
forged = ("state", str "in_progress") ∷ ("vendor_id", str "v2") ∷ []

update_work_order-Keeps_example :
    Keeps "vendor_id" work_order db (update_work_order env work_order forged db).0
    × Untouched "vendor_id" work_order db (update_work_order env work_order forged db).1
unfolding is_allowed
update_work_order-Keeps_example =
    update_work_order-Keeps env work_order forged db "vendor_id" refl refl

delete_lem_example :
    (db' : Db) × (delete env scope "c1" db ≡ (ok "c1", db'))
    × (get_by_id contracts "t1" "p1" "c1" db' ≡ (ok none, db'))
    × (count_where (is_pending "c1") (db'.rows work_orders) ≡ 0)
unfolding in_scope get count_where
delete_lem_example = delete_lem env scope "c1" db contract refl refl

get_by_vendor_token_lem_example :
    Answers env "a-token-of-sixteen" (get_by_vendor_token env "a-token-of-sixteen" db).0
    × ((get_by_vendor_token env "a-token-of-sixteen" db).1 ≡ db)
get_by_vendor_token_lem_example = get_by_vendor_token_lem env "a-token-of-sixteen" db
