-- ===== src/Models.antt =====
-- The columns of the tables with their defaults: src/app/models. A row is the dict that the
-- `_…_to_dict` function of its table builds; the columns that are lists or dicts are not nullable,
-- so the `or []` and `or {}` of those functions never apply. A column with no default that is not
-- nullable is left to the data of `create`.
use python_workflow_service.Prelude.{[], ◌∷◌, true, false, pos}
use python_workflow_service.Value.{Instant, null, bool, num, str, at, seq, obj, nil, end}
use python_workflow_service.Value.Dict.{Row}

-- `record_status`, `deleted_at`, `created_at` and `updated_at`.
abbrev lifecycle : Instant → Row
lifecycle now =
    ("record_status", str "active")
    ∷ ("deleted_at", null)
    ∷ ("created_at", at now)
    ∷ ("updated_at", at now)
    ∷ []

unfoldable pub work_order_defaults : Instant → Row
work_order_defaults now =
    ("description", null)
    ∷ ("asset_ids", seq nil)
    ∷ ("contract_id", null)
    ∷ ("vendor_id", null)
    ∷ ("form_template_id", null)
    ∷ ("pre_start_form_template_id", null)
    ∷ ("state", str "upcoming")
    ∷ ("priority", str "medium")
    ∷ ("source", str "ad_hoc")
    ∷ ("scheduled_date", null)
    ∷ ("started_at", null)
    ∷ ("completed_at", null)
    ∷ ("assignee", null)
    ∷ ("assignee_user_id", null)
    ∷ ("line_items", seq nil)
    ∷ ("form_values", obj end)
    ∷ ("pre_start_form_values", obj end)
    ∷ ("estimated_cost", null)
    ∷ ("access_notes", null)
    ∷ ("is_recurring", bool false)
    ∷ ("recurring_frequency", null)
    ∷ ("recurring_days", seq nil)
    ∷ ("recurring_end_date", null)
    ∷ ("recurring_parent_id", null)
    ∷ ("recurring_next_date", null)
    ∷ ("invoice_ids", seq nil)
    ∷ ("vendor_token_hash", null)
    ∷ ("timeline", seq nil)
    ∷ ("termination_reason", null)
    ∷ lifecycle now

unfoldable pub contract_defaults : Instant → Row
contract_defaults now =
    ("asset_ids", seq nil)
    ∷ ("end_date", null)
    ∷ ("visit_frequency", str "quarterly")
    ∷ ("payment_frequency", str "quarterly")
    ∷ ("value", null)
    ∷ ("currency", str "INR")
    ∷ ("status", str "active")
    ∷ ("next_visit_date", null)
    ∷ ("last_serviced_date", null)
    ∷ ("auto_generate_lead_days", null)
    ∷ ("scope_included", null)
    ∷ ("scope_excluded", null)
    ∷ ("form_template_id", null)
    ∷ ("pre_start_form_template_id", null)
    ∷ ("documents", seq nil)
    ∷ ("termination_reason", null)
    ∷ lifecycle now

unfoldable pub audit_event_defaults : Instant → Row
audit_event_defaults now =
    ("entity_label", null)
    ∷ ("actor", null)
    ∷ ("source", str "fm")
    ∷ ("changes", seq nil)
    ∷ ("snapshot", obj end)
    ∷ ("at", at now)
    ∷ []

-- `attempt` starts at 1, before any attempt is made.
unfoldable pub webhook_delivery_defaults : Instant → Row
webhook_delivery_defaults now =
    ("trigger_id", null)
    ∷ ("entity", null)
    ∷ ("entity_id", null)
    ∷ ("request_payload", obj end)
    ∷ ("response_status", null)
    ∷ ("error", null)
    ∷ ("attempt", num (pos 1))
    ∷ ("duration_ms", num (pos 0))
    ∷ ("delivered", bool false)
    ∷ ("created_at", at now)
    ∷ []

unfoldable pub trigger_defaults : Instant → Row
trigger_defaults now = ("is_active", bool true) ∷ ("secret", null) ∷ lifecycle now

unfoldable pub invoice_defaults : Instant → Row
invoice_defaults now =
    ("date", null)
    ∷ ("line_items", seq nil)
    ∷ ("subtotal", num (pos 0))
    ∷ ("tax", num (pos 0))
    ∷ ("total", num (pos 0))
    ∷ ("currency", str "INR")
    ∷ ("status", str "submitted")
    ∷ ("document", obj end)
    ∷ ("files", seq nil)
    ∷ ("timeline", seq nil)
    ∷ ("revisions", seq nil)
    ∷ ("payment_id", null)
    ∷ lifecycle now

unfoldable pub payment_defaults : Instant → Row
payment_defaults now =
    ("invoice_id", null)
    ∷ ("work_order_id", null)
    ∷ ("currency", str "INR")
    ∷ ("method", str "bank_transfer")
    ∷ ("reference", null)
    ∷ ("date", null)
    ∷ ("status", str "completed")
    ∷ ("receipt", obj end)
    ∷ ("notes", null)
    ∷ lifecycle now

unfoldable pub asset_defaults : Instant → Row
asset_defaults now =
    ("make", null)
    ∷ ("model", null)
    ∷ ("serial_number", null)
    ∷ ("description", null)
    ∷ ("status", str "operational")
    ∷ ("location_id", null)
    ∷ ("location_text", null)
    ∷ ("landmark_note", null)
    ∷ ("photos", seq nil)
    ∷ ("associated_parts", seq nil)
    ∷ ("purchase_date", null)
    ∷ ("purchase_cost", null)
    ∷ ("currency", str "INR")
    ∷ ("supplier", null)
    ∷ ("supplier_vendor_id", null)
    ∷ ("purchase_order_number", null)
    ∷ ("invoice_ref", null)
    ∷ ("install_date", null)
    ∷ ("warranty_start", null)
    ∷ ("warranty_expiry", null)
    ∷ ("warranty_terms", null)
    ∷ ("documents", seq nil)
    ∷ ("custom_field_values", obj end)
    ∷ ("contract_id", null)
    ∷ lifecycle now

unfoldable pub asset_category_defaults : Instant → Row
asset_category_defaults now = ("description", str "") ∷ ("parent_id", null) ∷ lifecycle now

unfoldable pub form_template_defaults : Instant → Row
form_template_defaults now = ("description", str "") ∷ ("schema", obj end) ∷ lifecycle now

unfoldable pub custom_field_defaults : Instant → Row
custom_field_defaults now =
    ("type_config", obj end)
    ∷ ("is_required", bool false)
    ∷ ("is_active", bool true)
    ∷ ("sort_order", num (pos 0))
    ∷ ("show_on_create", bool true)
    ∷ ("show_on_detail", bool true)
    ∷ ("scope", str "global")
    ∷ ("category_id", null)
    ∷ lifecycle now

unfoldable pub api_key_defaults : Instant → Row
api_key_defaults now = ("last_used_at", null) ∷ lifecycle now

-- The id is the same for every row.
unfoldable pub business_profile_defaults : Instant → Row
business_profile_defaults now =
    ("id", str "default")
    ∷ ("name", str "")
    ∷ ("legal_name", str "")
    ∷ ("gstin", str "")
    ∷ ("address_line", str "")
    ∷ ("city", str "")
    ∷ ("state", str "")
    ∷ ("pincode", str "")
    ∷ ("phone", str "")
    ∷ ("email", str "")
    ∷ ("website", str "")
    ∷ ("logo", obj end)
    ∷ ("bank_name", str "")
    ∷ ("bank_account", str "")
    ∷ ("bank_ifsc", str "")
    ∷ ("default_wo_notes", str "")
    ∷ ("default_wo_terms", str "")
    ∷ ("created_at", at now)
    ∷ ("updated_at", at now)
    ∷ []

unfoldable pub pdf_template_defaults : Instant → Row
pdf_template_defaults now =
    ("doc_type", str "work_order")
    ∷ ("is_default", bool false)
    ∷ ("base_pdf", null)
    ∷ ("schemas", seq nil)
    ∷ lifecycle now

unfoldable pub api_call_log_defaults : Instant → Row
api_call_log_defaults now =
    ("at", at now)
    ∷ ("duration_ms", num (pos 0))
    ∷ ("source", null)
    ∷ ("request_body", obj end)
    ∷ ("response_body", obj end)
    ∷ []
