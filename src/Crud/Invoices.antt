-- ===== src/Crud/Invoices.antt =====
-- src/app/crud/crud_invoices.py, with the unique constraint of src/app/models/vendor_invoice.py: no
-- two rows of a project have the same number, deleted rows included.
use python_workflow_service.Prelude.{
  ℕ, String, Bool, true, not, ◌&&◌, Option, none, some, List, [], ◌∷◌, any, if◌then◌else◌,
}
use python_workflow_service.Prelude.Text.{is_empty}
use python_workflow_service.Value.{Value, value_eq}
use python_workflow_service.Value.Dict.{Row, get, has_key}
use python_workflow_service.Timeline.{new_timeline_event, append_event}
use python_workflow_service.Models.{invoice_defaults}
use python_workflow_service.Store.{Env, Action, invoices, duplicate_value, pure, gets, raise, ◌>>=◌}
use python_workflow_service.Store.Order.{newer}
use python_workflow_service.Store.Query
use python_workflow_service.Store.Query.{column_is, is_active, in_scope, list_page}

-- The WHERE clause of `list`; "" is an argument that is not given.
unfoldable pub listed : String → String → String → String → Row → Bool
unfolding get
listed tenant_id project_id work_order_id status r =
    column_is r "tenant_id" tenant_id
    && column_is r "project_id" project_id
    && is_active r
    && (if is_empty work_order_id then true else column_is r "work_order_id" work_order_id)
    && (if is_empty status then true else column_is r "status" status)

unfoldable pub list : String → String → ℕ → ℕ → String → String → Action (List Row × ℕ)
unfolding listed list_page newer
list tenant_id project_id page page_size work_order_id status =
    list_page invoices (listed tenant_id project_id work_order_id status) newer page page_size

unfoldable pub get_by_id : String → String → String → Action (Option Row)
unfolding Query.get_by_id
get_by_id = Query.get_by_id invoices

-- Another row of the project has the number.
unfoldable pub is_taken : String → String → Value → Row → Bool
unfolding get value_eq
is_taken project_id entity_id number r =
    column_is r "project_id" project_id
    && value_eq (get r "invoice_number") number
    && not (column_is r "id" entity_id)

module _ (env : Env) where
  -- `create`, and `IntegrityError` as the services report it.
  unfoldable pub create : String → String → Row → Action Row
  unfolding Query.create invoice_defaults is_taken
  create tenant_id project_id data' = do
    taken ←
        gets (λ db. any (is_taken project_id "" (get data' "invoice_number")) (db.rows invoices))
    (if taken
        then raise (duplicate_value "invoices.errors.duplicate_number")
        else Query.create env invoices "invoice" invoice_defaults tenant_id project_id data')

  -- Whether an update breaks the constraint: it changes a row, and gives it the number of another.
  unfoldable pub update_conflicts : String → String → String → Row → List Row → Bool
  unfolding in_scope is_taken
  update_conflicts tenant_id project_id entity_id data' rs =
      has_key data' "invoice_number"
      && any (in_scope tenant_id project_id entity_id) rs
      && any (is_taken project_id entity_id (get data' "invoice_number")) rs

  unfoldable pub update : String → String → String → Row → Action (Option Row)
  unfolding Query.update update_conflicts
  update tenant_id project_id entity_id data' = do
    taken ← gets (λ db. update_conflicts tenant_id project_id entity_id data' (db.rows invoices))
    (if taken
        then raise (duplicate_value "invoices.errors.duplicate_number")
        else Query.update env invoices tenant_id project_id entity_id data')

  unfoldable pub soft_delete : String → String → String → Action Bool
  unfolding Query.soft_delete
  soft_delete = Query.soft_delete env invoices

  unfoldable pub append_timeline : String → String → String → Row → Action (Option Value)
  unfolding get_by_id update new_timeline_event append_event get
  append_timeline tenant_id project_id entity_id event = do
    record' ← get_by_id tenant_id project_id entity_id
    elim record' [
      | none ↦ pure none
      | some r ↦ do
        entry ← new_timeline_event env event
        updated ←
            update tenant_id project_id entity_id
              (("timeline", append_event (get r "timeline") entry) ∷ [])
        pure (elim updated [ none ↦ none | some u ↦ some (get u "timeline") ])
    ]
