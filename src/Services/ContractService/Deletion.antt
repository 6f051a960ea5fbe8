-- ===== src/Services/ContractService/Deletion.antt =====
-- What `delete` of src/app/business/services/contract_service.py leaves behind.

use python_workflow_service.Prelude.{
  find_sound, String, ◌≡◌, refl, ◌∙◌, ap, true, false, ◌||◌, Option, none, some, [], find, arith,
  eq_iff,
}
use python_workflow_service.Value.{
  Value, null, bool, num, str, enum, on, at, seq, obj, is_text, py_str,
}
use python_workflow_service.Value.Dict.{Row, get, insert, get-insert}
use python_workflow_service.Store.{Db, Env, Result, ok, err, work_orders, contracts}
use python_workflow_service.Store.Query
use python_workflow_service.Store.Query.{column_is, in_scope, count_where, select_one}
use python_workflow_service.Store.Laws.{soft_delete-get_by_id}
use python_workflow_service.Crud.Contracts
use python_workflow_service.Crud.WorkOrders.{is_pending}
use python_workflow_service.Events.Laws.{record_and_dispatch_frame}
use python_workflow_service.Scheduler.Data.{text_of, is_terminal, contract_status}
use python_workflow_service.Scheduler.Recompute.{recompute_contract-cancels}
use python_workflow_service.Services.{Scope, get_record, service_event}
use python_workflow_service.Services.ContractService.{delete}

py_str-is_text : (v : Value) (s : String) → is_text v s ≡ true → py_str v ≡ s
unfolding py_str
py_str-is_text (str t) s h = (eq_iff t s).0 h
py_str-is_text (enum t) s h = (eq_iff t s).0 h
py_str-is_text null s h = ground arith
py_str-is_text (bool b) s h = ground arith
py_str-is_text (num z) s h = ground arith
py_str-is_text (on d) s h = ground arith
py_str-is_text (at t) s h = ground arith
py_str-is_text (seq vs) s h = ground arith
py_str-is_text (obj r) s h = ground arith

abbrev found_of : Result (Option Row) × Db → Option Row
found_of (ok o, db) = o
found_of (err e, db) = none

module _ (env : Env) (s : Scope) (entity_id : String) (db : Db) (before : Row) where
  abbrev marked : Row
  marked = insert "record_status" (str "deleted") before

  marked-deleted :
      (is_text (get marked "record_status") "deleted" || is_terminal (contract_status marked))
      ≡ true
  marked-deleted = rw (get-insert "record_status" "record_status" (str "deleted") before) refl

  marked-id :
      find (in_scope s.tenant_id s.project_id entity_id) (db.rows contracts) ≡ some before
      → text_of marked "id" ≡ entity_id
  unfolding in_scope
  marked-id here =
      let scoped =
        find_sound (in_scope s.tenant_id s.project_id entity_id) (db.rows contracts) here in
      rw (get-insert "record_status" "id" (str "deleted") before)
        (py_str-is_text (get before "id") entity_id (ground arith))

  deleted_one :
      (db' : Db)
      → Query.soft_delete env contracts s.tenant_id s.project_id entity_id db ≡ (ok true, db')
      → Contracts.soft_delete env s.tenant_id s.project_id entity_id db ≡ (ok true, db')
  unfolding Contracts.soft_delete
  deleted_one db' h = h

  -- Deleting a contract that is found, under an id that one row has, returns. Afterwards the contract
  -- is not found, and none of the work orders that the scheduler made for it, and that are not deleted,
  -- is upcoming; those made by hand and the children of recurring templates are left as they are.
  pub delete_lem :
      find (in_scope s.tenant_id s.project_id entity_id) (db.rows contracts) ≡ some before
      → count_where (in_scope s.tenant_id s.project_id entity_id) (db.rows contracts) ≡ 1
      → (db' : Db) × (delete env s entity_id db ≡ (ok entity_id, db'))
        × (Query.get_by_id contracts s.tenant_id s.project_id entity_id db' ≡ (ok none, db'))
        × (count_where (is_pending entity_id) (db'.rows work_orders) ≡ 0)
  unfolding delete get_record Query.get_by_id select_one
  delete_lem here once =
      let (db₁, deleted, gone) =
        soft_delete-get_by_id env contracts s.tenant_id s.project_id entity_id db in
      let (db₂, counts, cancelled, _, _, empty, isolated, _) =
        recompute_contract-cancels env marked false true db₁ marked-deleted in
      let event = service_event "contract" "deleted" marked [] s "fm" in
      let (db₃, recorded, others) = record_and_dispatch_frame env event db₂ in
      let same_rows = others contracts refl refl ∙ isolated.others contracts refl in
      let still : find (in_scope s.tenant_id s.project_id entity_id) (db₃.rows contracts) ≡ none =
        rw same_rows (ap found_of gone) in
      let was_deleted = deleted_one db₁ (deleted ∙ rw once refl) in
      (
        db₃,
        rw (here, was_deleted, cancelled, recorded) refl,
        rw still refl,
        rw (others work_orders refl refl) (rw (marked-id here) at empty),
      )
