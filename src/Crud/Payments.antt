-- ===== src/Crud/Payments.antt =====
-- src/app/crud/crud_payments.py. An argument of `list` that is not given is "".
use python_workflow_service.Prelude.{ℕ, String, Bool, true, ◌&&◌, Option, List, if◌then◌else◌}
use python_workflow_service.Prelude.Text.{is_empty}
use python_workflow_service.Value.Dict.{Row, get}
use python_workflow_service.Store.{Env, Action, payments}
use python_workflow_service.Store.Query
use python_workflow_service.Store.Query.{column_is, is_active, in_scope, list_page}
use python_workflow_service.Store.Order.{newer}
use python_workflow_service.Models.{payment_defaults}

-- The WHERE clause of `list`.
unfoldable pub listed : String → String → String → Row → Bool
unfolding get
listed tenant_id project_id invoice_id r =
    column_is r "tenant_id" tenant_id
    && column_is r "project_id" project_id
    && is_active r
    && (if is_empty invoice_id then true else column_is r "invoice_id" invoice_id)

unfoldable pub list : String → String → ℕ → ℕ → String → Action (List Row × ℕ)
unfolding listed list_page newer
list tenant_id project_id page page_size invoice_id =
    list_page payments (listed tenant_id project_id invoice_id) newer page page_size

unfoldable pub get_by_id : String → String → String → Action (Option Row)
unfolding Query.get_by_id
get_by_id = Query.get_by_id payments

module _ (env : Env) where
  unfoldable pub create : String → String → Row → Action Row
  unfolding Query.create payment_defaults
  create = Query.create env payments "payment" payment_defaults

  unfoldable pub update : String → String → String → Row → Action (Option Row)
  unfolding Query.update
  update = Query.update env payments

  unfoldable pub soft_delete : String → String → String → Action Bool
  unfolding Query.soft_delete
  soft_delete = Query.soft_delete env payments
