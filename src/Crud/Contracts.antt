-- ===== src/Crud/Contracts.antt =====
-- src/app/crud/crud_contracts.py.
use python_workflow_service.Prelude.{
  ℕ, String, Bool, true, ◌&&◌, Option, none, some, List, [], ◌∷◌, if◌then◌else◌,
}
use python_workflow_service.Prelude.Text.{is_empty}
use python_workflow_service.Value.{Value, at}
use python_workflow_service.Value.Dict.{Row, get, merge}
use python_workflow_service.Models.{contract_defaults}
use python_workflow_service.Store.{Env, Action, contracts, fresh, ◌>>=◌}
use python_workflow_service.Store.Order.{newer}
use python_workflow_service.Store.Query
use python_workflow_service.Store.Query.{
  column_is, is_active, update_where, select_all, execute_update, list_page,
}

-- The WHERE clause of `list`; a status that is not given is "".
unfoldable pub listed : String → String → String → Row → Bool
unfolding get
listed tenant_id project_id status r =
    column_is r "tenant_id" tenant_id
    && column_is r "project_id" project_id
    && is_active r
    && (if is_empty status then true else column_is r "status" status)

unfoldable pub list : String → String → ℕ → ℕ → String → Action (List Row × ℕ)
unfolding listed list_page newer
list tenant_id project_id page page_size status =
    list_page contracts (listed tenant_id project_id status) newer page page_size

unfoldable pub get_by_id : String → String → String → Action (Option Row)
unfolding Query.get_by_id
get_by_id = Query.get_by_id contracts

-- The WHERE clause of `list_active_for_scheduler`.
unfoldable pub is_scheduled : Option String → Row → Bool
unfolding get
is_scheduled tenant_id r = is_active r && elim tenant_id [
  | none ↦ true
  | some t ↦ (if is_empty t then true else column_is r "tenant_id" t)
]

unfoldable pub list_active_for_scheduler : Option String → Action (List Row)
unfolding is_scheduled select_all
list_active_for_scheduler tenant_id = select_all contracts (is_scheduled tenant_id)

module _ (env : Env) where
  unfoldable pub create : String → String → Row → Action Row
  unfolding Query.create contract_defaults
  create = Query.create env contracts "contract" contract_defaults

  unfoldable pub update : String → String → String → Row → Action (Option Row)
  unfolding Query.update
  update = Query.update env contracts

  unfoldable pub soft_delete : String → String → String → Action Bool
  unfolding Query.soft_delete
  soft_delete = Query.soft_delete env contracts

  unfoldable pub update_next_visit_date : String → Value → Action (Unit {0})
  unfolding update_where merge get
  update_next_visit_date contract_id next_visit_date = do
    now ← fresh env.now
    execute_update contracts (λ r. column_is r "id" contract_id)
        (λ r. merge r (("next_visit_date", next_visit_date) ∷ ("updated_at", at now) ∷ []))
