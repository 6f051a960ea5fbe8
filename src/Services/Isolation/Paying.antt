-- ===== src/Services/Isolation/Paying.antt =====
-- The service of the payments, src/app/business/services/payment_service.py, with what it asks of the invoices
-- and the work orders, leaves the rows of other tenants and projects alone.
use python_workflow_service.Prelude.{
  String, ◌≡◌, refl, false, Option, none, some, Option-cases, List, [], ◌∷◌, find, inl, inr,
  if◌then◌else◌,
}
use python_workflow_service.Prelude.Text.{is_empty}
use python_workflow_service.Value.{Value, str, is_text, truthy, py_str, or_default}
use python_workflow_service.Value.Dict.{Row, get, has_key}
use python_workflow_service.Models.{payment_defaults}
use python_workflow_service.Timeline.{new_timeline_event, append_event}
use python_workflow_service.Store.{
  Env, Action, payments, work_orders, invoices, pure, skip, or_raise, ◌>>=◌,
}
use python_workflow_service.Store.Query
use python_workflow_service.Store.Query.{in_scope, select_one}
use python_workflow_service.Store.Outside.{
  Unscoped, Kept-refl, or_raise-Keeps, update-Keeps, soft_delete-Keeps, create-Keeps, insert-absent,
}
use python_workflow_service.Crud.Invoices
use python_workflow_service.Crud.Payments
use python_workflow_service.Crud.WorkOrders
use python_workflow_service.Events.{diff_records, record_and_dispatch}
use python_workflow_service.Services.{
  Scope, missing_record, get_record, ensure_if_given, service_event,
}
use python_workflow_service.Services.InvoiceService
use python_workflow_service.Services.PaymentService
use python_workflow_service.Services.WorkOrderService
use python_workflow_service.Services.WorkOrderService.{Entry, entry_data}
use python_workflow_service.Services.Isolation.{
  Stays, get_record-Stays, ensure_if_given-Stays, decided-Stays, same-Stays, bind-Stays,
  prepare_update_payload-absent,
}
use python_workflow_service.Services.Isolation.Recording.{
  event-Stays, reported-Stays, removed-Stays, new_timeline_event-Stays,
}
use python_workflow_service.Services.Isolation.Invoicing.{update_invoice-Stays}

payment_create-Unscoped : (d : Row) → Unscoped d → Unscoped (PaymentService.prepare_create d)
unfolding PaymentService.prepare_create
payment_create-Unscoped d (h1, h2) = (
  insert-absent "tenant_id" "status" _ _ refl (
      insert-absent "tenant_id" "method" _ _ refl
        (insert-absent "tenant_id" "currency" _ d refl h1)),
  insert-absent "project_id" "status" _ _ refl (
      insert-absent "project_id" "method" _ _ refl
        (insert-absent "project_id" "currency" _ d refl h2)),
)

abbrev nullable : List String
nullable = "date" ∷ "reference" ∷ "receipt" ∷ "notes" ∷ []

payment_update-Unscoped : (d : Row) → Unscoped d → Unscoped (PaymentService.prepare_update d)
unfolding PaymentService.prepare_update
payment_update-Unscoped d (h1, h2) = (
  prepare_update_payload-absent "tenant_id" nullable "" d h1,
  prepare_update_payload-absent "project_id" nullable "" d h2,
)

module _ (env : Env) (s : Scope) (tenant_given : is_empty s.tenant_id ≡ false)
    (project_given : is_empty s.project_id ≡ false) where
  -- The timeline of a work order.
  change_work_order-Stays :
      (entity_id : String) (data' : Row)
      → Unscoped data'
      → Stays s (WorkOrders.update env s.tenant_id s.project_id entity_id data')
  unfolding WorkOrders.update
  change_work_order-Stays = update-Keeps s.tenant_id s.project_id env work_orders

  abbrev appended : Row → Value → Row
  appended r entry = ("timeline", append_event (get r "timeline") entry) ∷ []

  abbrev timeline_of : Option Row → Option Value
  timeline_of updated = elim updated [ none ↦ none | some u ↦ some (get u "timeline") ]

  abbrev append_entry : String → Row → Value → Action (Option Value)
  append_entry entity_id r entry = do
    updated ← WorkOrders.update env s.tenant_id s.project_id entity_id (appended r entry)
    pure (timeline_of updated)

  append_entry-Stays :
      (entity_id : String) (r : Row) (entry : Value) → Stays s (append_entry entity_id r entry)
  unfolding has_key
  append_entry-Stays entity_id r entry =
      bind-Stays s (WorkOrders.update env s.tenant_id s.project_id entity_id (appended r entry)) _
        (change_work_order-Stays entity_id (appended r entry) (refl, refl))
        (λ u. same-Stays s (timeline_of u))

  work_order_entry-Stays :
      (entity_id : String) (event : Row)
      → Stays s (WorkOrders.append_timeline env s.tenant_id s.project_id entity_id event)
  unfolding WorkOrders.append_timeline WorkOrders.get_by_id Query.get_by_id select_one
  work_order_entry-Stays entity_id event db =
      elim (Option-cases
        (find (in_scope s.tenant_id s.project_id entity_id) (db.rows work_orders))) [
          | inl missing ↦ rw missing (Kept-refl s.tenant_id s.project_id db db refl)
          | inr (r, found) ↦ rw found (
              bind-Stays s (new_timeline_event env event) (append_entry entity_id r)
                (new_timeline_event-Stays env s tenant_given project_given event)
                (append_entry-Stays entity_id r) db)
        ]

  pub work_order_timeline-Stays :
      (entity_id : String) (e : Entry)
      → Stays s (WorkOrderService.append_timeline env s entity_id e)
  unfolding WorkOrderService.append_timeline
  work_order_timeline-Stays entity_id e =
      bind-Stays s
        (WorkOrders.append_timeline env s.tenant_id s.project_id entity_id (entry_data e)) _
        (work_order_entry-Stays entity_id (entry_data e))
        (λ found.
          bind-Stays s (or_raise found missing_record) _
            (or_raise-Keeps s.tenant_id s.project_id found missing_record)
            (λ timeline.
              bind-Stays s (get_record work_orders s entity_id) _
                (get_record-Stays s work_orders entity_id)
                (λ record'.
                  bind-Stays s
                    (record_and_dispatch env
                      (service_event "work_order" "updated" record' [] s "fm"))
                    _
                    (event-Stays env s tenant_given project_given "work_order" "updated" record' []
                      "fm")
                    (λ done. same-Stays s timeline))))

  -- The settlement of an invoice.
  note_release-Stays :
      (work_order_id : Value) (note : String)
      → Stays s (PaymentService.note_release env s work_order_id note)
  unfolding PaymentService.note_release
  note_release-Stays work_order_id note =
      decided-Stays s (truthy work_order_id) _ _
        (bind-Stays s
          (WorkOrderService.append_timeline env s (py_str work_order_id) (record {
            event_type = "payment_released";
            note = some note;
            by_whom = none;
            from_state = none;
            to_state = none;
          }))
          _ (work_order_timeline-Stays (py_str work_order_id) _) (λ timeline. same-Stays s tt))
        (same-Stays s tt)

  settle_open-Stays :
      (payment invoice : Row) → Stays s (PaymentService.settle_open env s payment invoice)
  unfolding PaymentService.settle_open has_key
  settle_open-Stays payment invoice =
      bind-Stays s
        (InvoiceService.update env s (py_str (get payment "invoice_id")) (
          ("status", str "paid")
          ∷ ("payment_id", get payment "id")
          ∷ ("note", str (PaymentService.settlement_note payment invoice))
          ∷ []))
        _
        (update_invoice-Stays env s tenant_given project_given (py_str (get payment "invoice_id")) _
          (refl, refl))
        (λ updated.
          note_release-Stays
            (or_default (get invoice "work_order_id") (get payment "work_order_id"))
            (PaymentService.settlement_note payment invoice))

  settle-Stays :
      (payment : Row) (found : Option Row) → Stays s (PaymentService.settle env s payment found)
  unfolding PaymentService.settle
  settle-Stays payment none = same-Stays s tt
  settle-Stays payment (some invoice) =
      decided-Stays s (is_text (get invoice "status") "paid") _ _ (same-Stays s tt)
        (settle_open-Stays payment invoice)

  settle_linked_invoice-Stays :
      (payment : Row) → Stays s (PaymentService.settle_linked_invoice env s payment)
  unfolding PaymentService.settle_linked_invoice Invoices.get_by_id Query.get_by_id select_one
  settle_linked_invoice-Stays payment db =
      settle-Stays payment
        (find (in_scope s.tenant_id s.project_id (py_str (get payment "invoice_id")))
          (db.rows invoices))
        db

  validate_references-Stays : (data' : Row) → Stays s (PaymentService.validate_references s data')
  unfolding PaymentService.validate_references
  validate_references-Stays data' =
      bind-Stays s (ensure_if_given invoices s (get data' "invoice_id")) _
        (ensure_if_given-Stays s invoices (get data' "invoice_id"))
        (λ _. ensure_if_given-Stays s work_orders (get data' "work_order_id"))

  store_payment-Stays :
      (data' : Row) → Unscoped data' → Stays s (Payments.create env s.tenant_id s.project_id data')
  unfolding Payments.create
  store_payment-Stays =
      create-Keeps s.tenant_id s.project_id env payments "payment" payment_defaults

  pub create_payment-Stays :
      (data' : Row) → Unscoped data' → Stays s (PaymentService.create env s data')
  unfolding PaymentService.create
  create_payment-Stays data' h =
      bind-Stays s (PaymentService.validate_references s data') _ (validate_references-Stays data')
        (λ _.
          bind-Stays s
            (Payments.create env s.tenant_id s.project_id (PaymentService.prepare_create data')) _
            (store_payment-Stays (PaymentService.prepare_create data')
              (payment_create-Unscoped data' h))
            (λ record'.
              bind-Stays s
                (record_and_dispatch env (service_event "payment" "created" record' [] s "fm")) _
                (event-Stays env s tenant_given project_given "payment" "created" record' [] "fm")
                (λ _.
                  bind-Stays s
                    (if PaymentService.settles record'
                      then PaymentService.settle_linked_invoice env s record'
                      else skip)
                    _
                    (decided-Stays s (PaymentService.settles record') _ _
                      (settle_linked_invoice-Stays record') (same-Stays s tt))
                    (λ _. same-Stays s record'))))

  change_payment-Stays :
      (entity_id : String) (data' : Row)
      → Unscoped data'
      → Stays s (Payments.update env s.tenant_id s.project_id entity_id data')
  unfolding Payments.update
  change_payment-Stays = update-Keeps s.tenant_id s.project_id env payments

  write_payment-Stays :
      (entity_id : String) (before payload : Row)
      → Unscoped payload
      → Stays s (PaymentService.write env s entity_id before payload)
  unfolding PaymentService.write
  write_payment-Stays entity_id before [] h = same-Stays s before
  write_payment-Stays entity_id before (entry ∷ entries) h =
      bind-Stays s (Payments.update env s.tenant_id s.project_id entity_id (entry ∷ entries)) _
        (change_payment-Stays entity_id (entry ∷ entries) h)
        (λ updated.
          bind-Stays s (or_raise updated missing_record) _
            (or_raise-Keeps s.tenant_id s.project_id updated missing_record)
            (λ record'.
              reported-Stays env s tenant_given project_given "payment" "updated" record'
                (diff_records before record') "fm"))

  pub update_payment-Stays :
      (entity_id : String) (data' : Row)
      → Unscoped data'
      → Stays s (PaymentService.update env s entity_id data')
  unfolding PaymentService.update
  update_payment-Stays entity_id data' h =
      bind-Stays s (get_record payments s entity_id) _ (get_record-Stays s payments entity_id)
        (λ before.
          write_payment-Stays entity_id before (PaymentService.prepare_update data')
            (payment_update-Unscoped data' h))

  pub delete_payment-Stays : (entity_id : String) → Stays s (PaymentService.delete env s entity_id)
  unfolding PaymentService.delete Payments.soft_delete
  delete_payment-Stays entity_id =
      bind-Stays s (get_record payments s entity_id) _ (get_record-Stays s payments entity_id)
        (λ before.
          removed-Stays env s tenant_given project_given "payment" entity_id before
            (Payments.soft_delete env s.tenant_id s.project_id entity_id)
            (soft_delete-Keeps s.tenant_id s.project_id env payments entity_id))
