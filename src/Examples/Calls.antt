-- ===== src/Examples/Calls.antt =====
-- The theorems on the services, at one call each.
use python_workflow_service.Prelude.{◌≡◌, refl, List, [], ◌∷◌, pos}
use python_workflow_service.Value.{str, num, py_str}
use python_workflow_service.Value.Dict.{Row, get}
use python_workflow_service.Store.Query.{in_scope}
use python_workflow_service.Store.{Db, Table, invoices}
use python_workflow_service.Scheduler.Data.{has_text}
use python_workflow_service.Services.{Scope}
use python_workflow_service.Services.ApiKeyService.{ApiKeyScope}
use python_workflow_service.Services.McpService.{list_work_orders, mcp_tools, run_tool}
use python_workflow_service.Services.McpService.ReadOnly.{
  Called, run_tool-only_reads, call_tool_lem,
}
use python_workflow_service.Services.PaymentService.{settle_linked_invoice}
use python_workflow_service.Services.PaymentService.Keeping.{Settled}
use python_workflow_service.Services.PaymentService.Settlement.{settle_linked_invoice_lem}
use python_workflow_service.Services.TriggerService.{create, update}
use python_workflow_service.Services.TriggerService.Safety.{Saves, save-Saves}
use python_workflow_service.Webhooks.{
  Net, answered, validate_outbound_webhook_url, check_parsed, check_port, check_address,
  validate_resolved_ips, has_credentials, is_local, is_blocked_ip,
}
use python_workflow_service.Webhooks.Worker.{World, deliver_webhook}
use python_workflow_service.Webhooks.Worker.Success.{Succeeded, deliver_webhook-Succeeded}
use python_workflow_service.Examples.{env, db, net, quiet, delivery, full_outbox}

abbrev scope : Scope
scope = record { tenant_id = "t1"; project_id = "p1" }

abbrev caller : ApiKeyScope
caller = record {
  tenant_id = str "t1";
  project_id = str "p1";
  api_key_id = str "k1";
  api_key_name = str "Main";
}

run_tool-only_reads_example :
    (run_tool env scope caller list_work_orders (("limit", num (pos 5)) ∷ []) db).1 ≡ db
run_tool-only_reads_example =
    run_tool-only_reads env scope caller list_work_orders (("limit", num (pos 5)) ∷ []) db refl

call_tool_lem_example :
    Called env scope caller "delete_work_order" [] db (has_text mcp_tools "delete_work_order")
call_tool_lem_example = call_tool_lem env scope caller "delete_work_order" [] db

abbrev hook : Row
hook = ("name", str "Hook") ∷ ("webhook_url", str "https://hooks.example/in") ∷ []

abbrev world : World
world = record { db = db; traffic = quiet }

save-Saves_example :
    Saves net "https://hooks.example/in" quiet db
      (validate_outbound_webhook_url net "https://hooks.example/in" quiet).0
      (create net env scope hook world)
    × Saves net "https://hooks.example/in" quiet db
        (validate_outbound_webhook_url net "https://hooks.example/in" quiet).0
        (update net env scope "g1" hook world)
unfolding get py_str
save-Saves_example = save-Saves net env scope hook "g1" world refl

-- Every POST is answered by 204.
abbrev accepting : Net
accepting = record net { post = λ n r. answered 204 }

deliver_webhook-Succeeded_example :
    Succeeded delivery full_outbox (deliver_webhook accepting (λ r. 0) delivery full_outbox)
unfolding validate_outbound_webhook_url check_parsed check_port check_address validate_resolved_ips
    has_credentials is_local is_blocked_ip get py_str
deliver_webhook-Succeeded_example =
    deliver_webhook-Succeeded accepting delivery 204 "https://hooks.example/in" (λ r. 0) full_outbox
      delivery (λ s. refl) (λ n r. refl) refl refl refl refl

abbrev payment : Row
payment =
    ("id", str "y1")
    ∷ ("invoice_id", str "i1")
    ∷ ("work_order_id", str "w1")
    ∷ ("amount", num (pos 123456))
    ∷ ("currency", str "INR")
    ∷ []

abbrev invoice : Row
invoice =
    ("id", str "i1")
    ∷ ("tenant_id", str "t1")
    ∷ ("project_id", str "p1")
    ∷ ("invoice_number", str "INV-1")
    ∷ ("work_order_id", str "w1")
    ∷ ("status", str "approved")
    ∷ ("record_status", str "active")
    ∷ []

abbrev billed : Table → List Row
billed invoices = invoice ∷ []
billed _ = []

abbrev billed_db : Db
billed_db = record { rows = billed; reads = 0; locks = 0 }

settle_linked_invoice_lem_example :
    Settled scope "i1" "y1" (settle_linked_invoice env scope payment billed_db).1
unfolding get py_str in_scope
settle_linked_invoice_lem_example = settle_linked_invoice_lem env scope payment "y1" billed_db refl
