-- ===== src/Services/Isolation/Invoicing.antt =====
-- The service of the invoices, src/app/business/services/invoice_service.py, leaves the rows of other tenants
-- and projects alone.
use python_workflow_service.Prelude.{
  String, ◌≡◌, refl, false, Option, none, some, Option-cases, Bool-cases, [], ◌∷◌, any, find, inl,
  inr, str_eq, if◌then◌else◌,
}
use python_workflow_service.Prelude.Text.{is_empty}
use python_workflow_service.Value.{
  Value, null, str, seq, obj, end, items_of, truthy, py_str, nil, or_default,
}
use python_workflow_service.Value.Dict.{Row, get, has_key, insert, set_default, erase}
use python_workflow_service.Models.{invoice_defaults}
use python_workflow_service.Timeline.{new_timeline_event, append_event}
use python_workflow_service.Store.{
  Env, Action, invoices, work_orders, duplicate_value, pure, or_raise, ◌>>=◌, ◌>>◌,
}
use python_workflow_service.Store.Query
use python_workflow_service.Store.Query.{in_scope, select_one}
use python_workflow_service.Store.Outside.{
  Unscoped, Kept-refl, or_raise-Keeps, update-Keeps, soft_delete-Keeps, create-Keeps, insert-absent,
  set_default-absent, erase-absent,
}
use python_workflow_service.Crud.Invoices
use python_workflow_service.Events.{diff_records, record_and_dispatch}
use python_workflow_service.Services.{
  Scope, missing_record, get_record, ensure_exists, service_event, stripped, enum_value,
}
use python_workflow_service.Services.InvoiceService
use python_workflow_service.Services.Isolation.{
  Stays, get_record-Stays, ensure_exists-Stays, decided-Stays, same-Stays, raise-Stays, bind-Stays,
  prepare_update_payload-absent,
}
use python_workflow_service.Services.Isolation.Recording.{
  reported-Stays, removed-Stays, new_timeline_event-Stays,
}

module _ (k : String) where
  invoice_data-absent :
      (d : Row) (number lines document files revisions currency status : Value)
      → str_eq "invoice_number" k ≡ false
      → str_eq "line_items" k ≡ false
      → str_eq "document" k ≡ false
      → str_eq "files" k ≡ false
      → str_eq "revisions" k ≡ false
      → str_eq "currency" k ≡ false
      → str_eq "status" k ≡ false
      → has_key d k ≡ false
      → has_key
          (insert "status" status (
            insert "currency" currency (
              set_default "revisions" revisions (
                set_default "files" files (
                  set_default "document" document
                    (set_default "line_items" lines (insert "invoice_number" number d)))))))
          k
        ≡ false
  invoice_data-absent d number lines document files revisions currency status h1 h2 h3 h4 h5 h6 h7
        h =
      insert-absent k "status" status _ h7 (
        insert-absent k "currency" currency _ h6 (
          set_default-absent k "revisions" revisions _ h5 (
            set_default-absent k "files" files _ h4 (
              set_default-absent k "document" document _ h3 (
                set_default-absent k "line_items" lines _ h2
                  (insert-absent k "invoice_number" number d h1 h))))))

invoice_update-Unscoped :
    (d : Row)
    → Unscoped d
    → Unscoped (InvoiceService.prepare_update (erase "timeline" (erase "note" d)))
unfolding InvoiceService.prepare_update
invoice_update-Unscoped d (h1, h2) = (
  prepare_update_payload-absent "tenant_id" ("date" ∷ []) "invoice_number" _
      (erase-absent "tenant_id" "timeline" _ (erase-absent "tenant_id" "note" d h1)),
  prepare_update_payload-absent "project_id" ("date" ∷ []) "invoice_number" _
      (erase-absent "project_id" "timeline" _ (erase-absent "project_id" "note" d h2)),
)

-- The data of a new invoice before its timeline.
abbrev invoice_data : Row → Row
invoice_data d =
    let numbered = insert "invoice_number" (stripped (get d "invoice_number")) d in
    let listed = set_default "document" (obj end) (set_default "line_items" (seq nil) numbered) in
    let filed = set_default "revisions" (seq nil) (set_default "files" (seq nil) listed) in
    let priced = insert "currency" (or_default (get filed "currency") (str "INR")) filed in
    insert "status" (enum_value (get priced "status") "submitted") priced

invoice_data-Unscoped : (d : Row) → Unscoped d → Unscoped (invoice_data d)
invoice_data-Unscoped d (h1, h2) = (
  invoice_data-absent "tenant_id" d _ _ _ _ _ _ _ refl refl refl refl refl refl refl h1,
  invoice_data-absent "project_id" d _ _ _ _ _ _ _ refl refl refl refl refl refl refl h2,
)

module _ (env : Env) (s : Scope) (tenant_given : is_empty s.tenant_id ≡ false)
    (project_given : is_empty s.project_id ≡ false) where
  store_invoice-Stays :
      (data' : Row) → Unscoped data' → Stays s (Invoices.create env s.tenant_id s.project_id data')
  unfolding Invoices.create
  store_invoice-Stays data' h db =
      decided-Stays s
        (any (Invoices.is_taken s.project_id "" (get data' "invoice_number")) (db.rows invoices)) _
        _ (raise-Stays s Row (duplicate_value "invoices.errors.duplicate_number"))
        (create-Keeps s.tenant_id s.project_id env invoices "invoice" invoice_defaults data' h) db

  change_invoice-Stays :
      (entity_id : String) (data' : Row)
      → Unscoped data'
      → Stays s (Invoices.update env s.tenant_id s.project_id entity_id data')
  unfolding Invoices.update
  change_invoice-Stays entity_id data' h db =
      decided-Stays s
        (Invoices.update_conflicts env s.tenant_id s.project_id entity_id data' (db.rows invoices))
        _ _ (raise-Stays s (Option Row) (duplicate_value "invoices.errors.duplicate_number"))
        (update-Keeps s.tenant_id s.project_id env invoices entity_id data' h) db

  -- The data of a new entry.
  abbrev appended : Row → Value → Row
  appended r entry = ("timeline", append_event (get r "timeline") entry) ∷ []

  abbrev timeline_of : Option Row → Option Value
  timeline_of updated = elim updated [ none ↦ none | some u ↦ some (get u "timeline") ]

  abbrev append_entry : String → Row → Value → Action (Option Value)
  append_entry entity_id r entry = do
    updated ← Invoices.update env s.tenant_id s.project_id entity_id (appended r entry)
    pure (timeline_of updated)

  append_entry-Stays :
      (entity_id : String) (r : Row) (entry : Value) → Stays s (append_entry entity_id r entry)
  unfolding has_key
  append_entry-Stays entity_id r entry =
      bind-Stays s (Invoices.update env s.tenant_id s.project_id entity_id (appended r entry)) _
        (change_invoice-Stays entity_id (appended r entry) (refl, refl))
        (λ u. same-Stays s (timeline_of u))

  invoice_timeline-Stays :
      (entity_id : String) (event : Row)
      → Stays s (Invoices.append_timeline env s.tenant_id s.project_id entity_id event)
  unfolding Invoices.append_timeline Invoices.get_by_id Query.get_by_id select_one
  invoice_timeline-Stays entity_id event db =
      elim (Option-cases (find (in_scope s.tenant_id s.project_id entity_id) (db.rows invoices))) [
        | inl missing ↦ rw missing (Kept-refl s.tenant_id s.project_id db db refl)
        | inr (r, found) ↦ rw found (
            bind-Stays s (new_timeline_event env event) (append_entry entity_id r)
              (new_timeline_event-Stays env s tenant_given project_given event)
              (append_entry-Stays entity_id r) db)
      ]

  append_timeline-Stays :
      (entity_id type : String) (note by_whom : Value)
      → Stays s (InvoiceService.append_timeline env s entity_id type note by_whom)
  unfolding InvoiceService.append_timeline
  append_timeline-Stays entity_id type note by_whom =
      bind-Stays s
        (Invoices.append_timeline env s.tenant_id s.project_id entity_id
          (("type", str type) ∷ ("note", note) ∷ ("by", by_whom) ∷ []))
        _
        (invoice_timeline-Stays entity_id
          (("type", str type) ∷ ("note", note) ∷ ("by", by_whom) ∷ []))
        (λ found. or_raise-Keeps s.tenant_id s.project_id found missing_record)

  note_status-Stays :
      (entity_id : String) (note : Value) (type : Option String) (record' : Row)
      → Stays s (InvoiceService.note_status env s entity_id note type record')
  unfolding InvoiceService.note_status
  note_status-Stays entity_id note none record' = same-Stays s record'
  note_status-Stays entity_id note (some type) record' =
      bind-Stays s
        (InvoiceService.append_timeline env s entity_id type (if truthy note then note else null)
          null)
        _ (append_timeline-Stays entity_id type (if truthy note then note else null) null)
        (λ timeline. get_record-Stays s invoices entity_id)

  write_invoice-Stays :
      (entity_id : String) (before : Row) (note : Value) (payload : Row)
      → Unscoped payload
      → Stays s (InvoiceService.write env s entity_id before note payload)
  unfolding InvoiceService.write
  write_invoice-Stays entity_id before note payload h =
      bind-Stays s (Invoices.update env s.tenant_id s.project_id entity_id payload) _
        (change_invoice-Stays entity_id payload h)
        (λ updated.
          bind-Stays s (or_raise updated missing_record) _
            (or_raise-Keeps s.tenant_id s.project_id updated missing_record)
            (λ record'.
              bind-Stays s
                (InvoiceService.note_status env s entity_id note
                  (InvoiceService.change_event before record') record')
                _
                (note_status-Stays entity_id note (InvoiceService.change_event before record')
                  record')
                (λ noted.
                  reported-Stays env s tenant_given project_given "invoice" "updated" noted
                    (diff_records before noted) "fm")))

  -- The branches of `update`.
  abbrev changed_invoice : String → Row → Value → Row → Action Row
  changed_invoice entity_id before note payload = elim payload [
    | [] ↦ pure before
    | entry ∷ entries ↦ InvoiceService.write env s entity_id before note (entry ∷ entries)
  ]

  changed_invoice-Stays :
      (entity_id : String) (before : Row) (note : Value) (payload : Row)
      → Unscoped payload
      → Stays s (changed_invoice entity_id before note payload)
  changed_invoice-Stays entity_id before note [] h = same-Stays s before
  changed_invoice-Stays entity_id before note (entry ∷ entries) h =
      write_invoice-Stays entity_id before note (entry ∷ entries) h

  pub update_invoice-Stays :
      (entity_id : String) (data' : Row)
      → Unscoped data'
      → Stays s (InvoiceService.update env s entity_id data')
  unfolding InvoiceService.update
  update_invoice-Stays entity_id data' h =
      bind-Stays s (get_record invoices s entity_id) _ (get_record-Stays s invoices entity_id)
        (λ before.
          changed_invoice-Stays entity_id before (get data' "note")
            (InvoiceService.prepare_update (erase "timeline" (erase "note" data')))
            (invoice_update-Unscoped data' h))

  pub append_invoice_timeline-Stays :
      (entity_id type : String) (note by_whom : Value)
      → Stays s (InvoiceService.append_timeline env s entity_id type note by_whom)
  append_invoice_timeline-Stays = append_timeline-Stays

  pub delete_invoice-Stays : (entity_id : String) → Stays s (InvoiceService.delete env s entity_id)
  unfolding InvoiceService.delete Invoices.soft_delete
  delete_invoice-Stays entity_id =
      bind-Stays s (get_record invoices s entity_id) _ (get_record-Stays s invoices entity_id)
        (λ before.
          removed-Stays env s tenant_given project_given "invoice" entity_id before
            (Invoices.soft_delete env s.tenant_id s.project_id entity_id)
            (soft_delete-Keeps s.tenant_id s.project_id env invoices entity_id))

  -- What is written once the data is there.
  abbrev stored_invoice : String → Row → Action Row
  stored_invoice source payload = do
    record' ← Invoices.create env s.tenant_id s.project_id payload
    record_and_dispatch env (service_event "invoice" "created" record' [] s source)
    pure record'

  stored_invoice-Stays :
      (source : String) (payload : Row) → Unscoped payload → Stays s (stored_invoice source payload)
  stored_invoice-Stays source payload h =
      bind-Stays s (Invoices.create env s.tenant_id s.project_id payload) _
        (store_invoice-Stays payload h)
        (λ record'.
          reported-Stays env s tenant_given project_given "invoice" "created" record' [] source)

  prepared-Stays :
      (data' : Row) (k : Row → Action Row)
      → Unscoped data'
      → ((payload : Row) → Unscoped payload → Stays s (k payload))
      → Stays s (InvoiceService.prepare_create env data' >>= k)
  unfolding InvoiceService.prepare_create new_timeline_event
  prepared-Stays data' k h keeps db =
      let (h1, h2) = invoice_data-Unscoped data' h in
      elim (Bool-cases (truthy (get (invoice_data data') "timeline"))) [
        | inl given ↦ rw given (keeps (invoice_data data') (h1, h2) db)
        | inr missing ↦ rw missing (
            bind-Stays s (new_timeline_event env (("type", str "submitted") ∷ []))
              (λ event. k (insert "timeline" (seq (items_of (event ∷ []))) (invoice_data data')))
              (new_timeline_event-Stays env s tenant_given project_given
                (("type", str "submitted") ∷ []))
              (λ event. keeps _ (
                insert-absent "tenant_id" "timeline" _ _ refl h1,
                insert-absent "project_id" "timeline" _ _ refl h2,
              ))
              db)
      ]

  pub create_invoice-Stays :
      (source : String) (data' : Row)
      → Unscoped data'
      → Stays s (InvoiceService.create env s source data')
  unfolding InvoiceService.create
  create_invoice-Stays source data' h =
      bind-Stays s (ensure_exists work_orders s (py_str (get data' "work_order_id"))) _
        (ensure_exists-Stays s work_orders (py_str (get data' "work_order_id")))
        (λ found. prepared-Stays data' (stored_invoice source) h (stored_invoice-Stays source))
