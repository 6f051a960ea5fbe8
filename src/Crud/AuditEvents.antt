-- ===== src/Crud/AuditEvents.antt =====
-- src/app/crud/crud_audit_events.py. An argument of `list` that is not given is "".
use python_workflow_service.Prelude.{ℕ, String, Bool, true, ◌&&◌, List, if◌then◌else◌}
use python_workflow_service.Prelude.Text.{is_empty}
use python_workflow_service.Value.Dict.{Row, get}
use python_workflow_service.Models.{audit_event_defaults}
use python_workflow_service.Store.{Env, Action, audit_events}
use python_workflow_service.Store.Order.{logged_later}
use python_workflow_service.Store.Query.{column_is, insert_row, list_page}

-- The WHERE clause of `list`.
unfoldable pub listed : String → String → String → String → String → Row → Bool
unfolding get
listed tenant_id project_id entity entity_id source r =
    column_is r "tenant_id" tenant_id
    && column_is r "project_id" project_id
    && (if is_empty entity then true else column_is r "entity" entity)
    && (if is_empty entity_id then true else column_is r "entity_id" entity_id)
    && (if is_empty source then true else column_is r "source" source)

unfoldable pub list : String → String → ℕ → ℕ → String → String → String → Action (List Row × ℕ)
unfolding listed list_page logged_later
list tenant_id project_id page page_size entity entity_id source =
    list_page audit_events (listed tenant_id project_id entity entity_id source) logged_later page
      page_size

unfoldable pub create : Env → Row → Action Row
unfolding insert_row audit_event_defaults
create env = insert_row env audit_events "audit" audit_event_defaults
