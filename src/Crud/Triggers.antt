-- ===== src/Crud/Triggers.antt =====
-- src/app/crud/crud_triggers.py.
use python_workflow_service.Prelude.{String, Bool, ◌&&◌, Option, List}
use python_workflow_service.Value.{truthy}
use python_workflow_service.Value.Dict.{Row, get}
use python_workflow_service.Models.{trigger_defaults}
use python_workflow_service.Store.{Env, Action, triggers, pure, ◌>>=◌}
use python_workflow_service.Store.Order.{by_text}
use python_workflow_service.Store.Query
use python_workflow_service.Store.Query.{column_is, is_active, select_all, sort}

unfoldable pub get_by_id : String → String → String → Action (Option Row)
unfolding Query.get_by_id
get_by_id = Query.get_by_id triggers

-- The WHERE clause of `list`.
unfoldable pub listed : String → String → Row → Bool
unfolding get
listed tenant_id project_id r =
    column_is r "tenant_id" tenant_id && column_is r "project_id" project_id && is_active r

unfoldable pub list : Env → String → String → Action (List Row)
unfolding listed select_all sort by_text
list env tenant_id project_id = do
  rows ← select_all triggers (listed tenant_id project_id)
  pure (sort (by_text env "name") rows)

-- The WHERE clause of `list_matching_triggers`.
unfoldable pub matches : String → String → String → String → Row → Bool
unfolding get
matches tenant_id project_id entity event r =
    column_is r "tenant_id" tenant_id
    && column_is r "project_id" project_id
    && column_is r "entity" entity
    && column_is r "event" event
    && truthy (get r "is_active")
    && is_active r

unfoldable pub list_matching_triggers : String → String → String → String → Action (List Row)
unfolding matches select_all
list_matching_triggers tenant_id project_id entity event =
    select_all triggers (matches tenant_id project_id entity event)

module _ (env : Env) where
  unfoldable pub create : String → String → Row → Action Row
  unfolding Query.create trigger_defaults
  create = Query.create env triggers "trigger" trigger_defaults

  unfoldable pub update : String → String → String → Row → Action (Option Row)
  unfolding Query.update
  update = Query.update env triggers

  unfoldable pub soft_delete : String → String → String → Action Bool
  unfolding Query.soft_delete
  soft_delete = Query.soft_delete env triggers
