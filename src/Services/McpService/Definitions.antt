-- ===== src/Services/McpService/Definitions.antt =====
-- `mcp_tools` of src/app/business/services/mcp_service.py: the definitions of the tools.
use python_workflow_service.Prelude.{List, [], ◌∷◌, pos}
use python_workflow_service.Value.{Value, str, num, seq, obj, items_of}
use python_workflow_service.Value.Dict.{Row, fields_of}

abbrev row_value : Row → Value
row_value r = obj (fields_of r)

abbrev the_list_work_orders : Row
the_list_work_orders =
    ("name", str "list_work_orders")
    ∷ ("description", str "List work orders, newest first.")
    ∷ (
      "inputSchema",
      row_value (
          ("type", str "object")
          ∷ (
            "properties",
            row_value (
                ("state", row_value (("type", str "string") ∷ []))
                ∷ ("vendor_id", row_value (("type", str "string") ∷ []))
                ∷ ("limit", row_value (("type", str "integer") ∷ ("default", num (pos 50)) ∷ []))
                ∷ []),
          )
          ∷ []),
    )
    ∷ []

abbrev the_get_work_order : Row
the_get_work_order =
    ("name", str "get_work_order")
    ∷ ("description", str "Get one work order by id.")
    ∷ (
      "inputSchema",
      row_value (
          ("type", str "object")
          ∷ ("properties", row_value (("id", row_value (("type", str "string") ∷ [])) ∷ []))
          ∷ ("required", seq (items_of (str "id" ∷ [])))
          ∷ []),
    )
    ∷ []

abbrev the_create_work_order : Row
the_create_work_order =
    ("name", str "create_work_order")
    ∷ ("description", str "Create an ad-hoc work order.")
    ∷ (
      "inputSchema",
      row_value (
          ("type", str "object")
          ∷ (
            "properties",
            row_value (
                ("title", row_value (("type", str "string") ∷ []))
                ∷ ("scheduled_date", row_value (("type", str "string") ∷ []))
                ∷ ("vendor_id", row_value (("type", str "string") ∷ []))
                ∷ (
                  "asset_ids",
                  row_value (
                      ("type", str "array")
                      ∷ ("items", row_value (("type", str "string") ∷ []))
                      ∷ []),
                )
                ∷ ("priority", row_value (("type", str "string") ∷ []))
                ∷ ("description", row_value (("type", str "string") ∷ []))
                ∷ []),
          )
          ∷ ("required", seq (items_of (str "title" ∷ str "scheduled_date" ∷ str "vendor_id" ∷ [])))
          ∷ []),
    )
    ∷ []

abbrev the_update_work_order_status : Row
the_update_work_order_status =
    ("name", str "update_work_order_status")
    ∷ ("description", str "Move a work order to a new state.")
    ∷ (
      "inputSchema",
      row_value (
          ("type", str "object")
          ∷ (
            "properties",
            row_value (
                ("id", row_value (("type", str "string") ∷ []))
                ∷ ("state", row_value (("type", str "string") ∷ []))
                ∷ ("note", row_value (("type", str "string") ∷ []))
                ∷ []),
          )
          ∷ ("required", seq (items_of (str "id" ∷ str "state" ∷ [])))
          ∷ []),
    )
    ∷ []

abbrev the_list_invoices : Row
the_list_invoices =
    ("name", str "list_invoices")
    ∷ ("description", str "List vendor invoices, newest first.")
    ∷ (
      "inputSchema",
      row_value (
          ("type", str "object")
          ∷ (
            "properties",
            row_value (
                ("status", row_value (("type", str "string") ∷ []))
                ∷ ("limit", row_value (("type", str "integer") ∷ ("default", num (pos 50)) ∷ []))
                ∷ []),
          )
          ∷ []),
    )
    ∷ []

abbrev the_approve_invoice : Row
the_approve_invoice =
    ("name", str "approve_invoice")
    ∷ ("description", str "Approve a vendor invoice.")
    ∷ (
      "inputSchema",
      row_value (
          ("type", str "object")
          ∷ ("properties", row_value (("id", row_value (("type", str "string") ∷ [])) ∷ []))
          ∷ ("required", seq (items_of (str "id" ∷ [])))
          ∷ []),
    )
    ∷ []

abbrev the_reject_invoice : Row
the_reject_invoice =
    ("name", str "reject_invoice")
    ∷ ("description", str "Reject a vendor invoice.")
    ∷ (
      "inputSchema",
      row_value (
          ("type", str "object")
          ∷ (
            "properties",
            row_value (
                ("id", row_value (("type", str "string") ∷ []))
                ∷ ("reason", row_value (("type", str "string") ∷ []))
                ∷ []),
          )
          ∷ ("required", seq (items_of (str "id" ∷ [])))
          ∷ []),
    )
    ∷ []

abbrev the_request_invoice_revision : Row
the_request_invoice_revision =
    ("name", str "request_invoice_revision")
    ∷ ("description", str "Ask the vendor to re-issue an invoice.")
    ∷ (
      "inputSchema",
      row_value (
          ("type", str "object")
          ∷ (
            "properties",
            row_value (
                ("id", row_value (("type", str "string") ∷ []))
                ∷ ("note", row_value (("type", str "string") ∷ []))
                ∷ []),
          )
          ∷ ("required", seq (items_of (str "id" ∷ [])))
          ∷ []),
    )
    ∷ []

abbrev the_list_contracts : Row
the_list_contracts =
    ("name", str "list_contracts")
    ∷ ("description", str "List maintenance contracts.")
    ∷ (
      "inputSchema",
      row_value (
          ("type", str "object")
          ∷ (
            "properties",
            row_value (
                ("limit", row_value (("type", str "integer") ∷ ("default", num (pos 50)) ∷ []))
                ∷ []),
          )
          ∷ []),
    )
    ∷ []

abbrev the_list_payments : Row
the_list_payments =
    ("name", str "list_payments")
    ∷ ("description", str "List payments, newest first.")
    ∷ (
      "inputSchema",
      row_value (
          ("type", str "object")
          ∷ (
            "properties",
            row_value (
                ("limit", row_value (("type", str "integer") ∷ ("default", num (pos 50)) ∷ []))
                ∷ []),
          )
          ∷ []),
    )
    ∷ []

abbrev the_get_business_profile : Row
the_get_business_profile =
    ("name", str "get_business_profile")
    ∷ ("description", str "The issuing business profile used on documents.")
    ∷ ("inputSchema", row_value (("type", str "object") ∷ ("properties", row_value ([])) ∷ []))
    ∷ []

-- In the order of the source.
abbrev pub tool_definitions : List Row
tool_definitions =
    the_list_work_orders ∷ the_get_work_order ∷ the_create_work_order ∷ the_update_work_order_status
    ∷ the_list_invoices ∷ the_approve_invoice ∷ the_reject_invoice ∷ the_request_invoice_revision
    ∷ the_list_contracts ∷ the_list_payments ∷ the_get_business_profile ∷ []
