-- ===== src/Scheduler/Recompute.antt =====
-- `recompute_contract` of src/app/business/services/scheduler_service.py, and
-- `cancel_contract_work_orders` of src/app/crud/crud_work_orders.py.
use python_workflow_service.Prelude.{
  List, ◌∙◌, str_eq, String, ◌≡◌, refl, Bool, true, false, ◌||◌, [], ◌∷◌, arith, Bool-cases, inl,
  inr,
}
use python_workflow_service.Value.{Instant, str, at, is_text}
use python_workflow_service.Value.Dict.{Row, get, has_key, get-merge, last_write, last_write_absent}
use python_workflow_service.Store.{Db, Env, ok, work_orders}
use python_workflow_service.Store.Query.{count_where, update_where}
use python_workflow_service.Store.Laws.{Isolated, put_rows-Isolated, count-update_where}
use python_workflow_service.Crud.WorkOrders
use python_workflow_service.Crud.WorkOrders.{is_pending, terminate}
use python_workflow_service.Scheduler.{recompute_contract, cancel_pending}
use python_workflow_service.Scheduler.Data.{Counts, text_of, contract_status, is_terminal}

terminated :
    (contract_id : String) (now : Instant) (r : Row)
    → is_pending contract_id (terminate now r) ≡ false
unfolding is_pending last_write
terminated contract_id now r =
    let moved = get-merge r (("state", str "terminated") ∷ ("updated_at", at now) ∷ []) "state" in
    rw moved (ground arith)

-- What becomes of a row: where it meets the test it is terminated, with its other columns but the
-- time of the update; where it does not, it stays.
abbrev pub CancelledRow : String → Row → Row → Type 0
CancelledRow contract_id r s =
    (is_pending contract_id r ≡ false → s ≡ r)
    × (is_pending contract_id r ≡ true
        → (get s "state" ≡ str "terminated")
          × ((key : String)
              → str_eq "state" key ≡ false
              → str_eq "updated_at" key ≡ false
              → get s key ≡ get r key))

abbrev pub Cancelled : String → List Row → List Row → Type 0
Cancelled contract_id [] [] = Unit
Cancelled contract_id (r ∷ rs) (s ∷ ss) = CancelledRow contract_id r s × Cancelled contract_id rs ss
Cancelled contract_id _ _ = ⊥

module _ (contract_id : String) (now : Instant) where
  abbrev marks : Row
  marks = ("state", str "terminated") ∷ ("updated_at", at now) ∷ []

  terminate-others :
      (r : Row) (key : String)
      → str_eq "state" key ≡ false
      → str_eq "updated_at" key ≡ false
      → get (terminate now r) key ≡ get r key
  unfolding has_key
  terminate-others r key h k =
      get-merge r marks key ∙ last_write_absent marks key (get r key) (rw (h, k) refl)

  update_where-Cancelled :
      (rs : List Row)
      → Cancelled contract_id rs (update_where (is_pending contract_id) (terminate now) rs)
  unfolding update_where last_write
  update_where-Cancelled [] = tt
  update_where-Cancelled (r ∷ rs) = (
    elim (Bool-cases (is_pending contract_id r)) [
      | inl hit ↦
          rw hit ((λ miss. ground arith), (λ yes. (get-merge r marks "state", terminate-others r)))
      | inr miss ↦ rw miss ((λ no. refl), (λ clash. ground arith))
    ],
    update_where-Cancelled rs,
  )

-- Cancelling the work orders of a contract terminates those that the scheduler made for it, that are
-- upcoming and not deleted, and returns how many there were; no such work order is left. They keep
-- their other columns but the time of the update, and no other row and no other table changes.
pub cancel_contract_work_orders_lem :
    (env : Env) (contract_id : String) (db : Db)
    → (db' : Db) × (WorkOrders.cancel_contract_work_orders env contract_id db
        ≡ (ok (count_where (is_pending contract_id) (db.rows work_orders)), db'))
      × (count_where (is_pending contract_id) (db'.rows work_orders) ≡ 0)
      × Isolated work_orders (is_pending contract_id) db db'
      × Cancelled contract_id (db.rows work_orders) (db'.rows work_orders)
unfolding WorkOrders.cancel_contract_work_orders
cancel_contract_work_orders_lem env contract_id db =
    let now = env.now db.reads in
    (
      _,
      refl,
      count-update_where (is_pending contract_id) (terminate now) (terminated contract_id now)
          (db.rows work_orders),
      put_rows-Isolated work_orders (is_pending contract_id) (terminate now) db _ refl,
      update_where-Cancelled contract_id now (db.rows work_orders),
    )

module _ (env : Env) (contract : Row) (terms_changed status_changed : Bool) where
  -- Recomputing a contract that is deleted, terminated or expired makes no work order. It terminates
  -- the work orders that the scheduler made for it, that are upcoming and not deleted, reports how many,
  -- and leaves none of them upcoming. No other row and no other table changes.
  pub recompute_contract-cancels :
      (db : Db)
      → (is_text (get contract "record_status") "deleted" || is_terminal (contract_status contract))
        ≡ true
      → (db' : Db) × (counts : Counts) × (recompute_contract env contract terms_changed
            status_changed db
          ≡ (ok counts, db'))
        × (counts.created ≡ 0)
        × (counts.cancelled
            ≡ count_where (is_pending (text_of contract "id")) (db.rows work_orders))
        × (count_where (is_pending (text_of contract "id")) (db'.rows work_orders) ≡ 0)
        × Isolated work_orders (is_pending (text_of contract "id")) db db'
        × Cancelled (text_of contract "id") (db.rows work_orders) (db'.rows work_orders)
  unfolding recompute_contract cancel_pending
  recompute_contract-cancels db over =
      let (db', run, empty, isolated, cancelled) =
        cancel_contract_work_orders_lem env (text_of contract "id") db in
      (
        db',
        (record {
          created = 0;
          cancelled = count_where (is_pending (text_of contract "id")) (db.rows work_orders);
          skipped = 0;
        }),
        rw over (rw run refl),
        refl,
        refl,
        empty,
        isolated,
        cancelled,
      )
