-- ===== src/Services/PaymentService/Settlement.antt =====
-- What `_settle_linked_invoice` of src/app/business/services/payment_service.py does to the invoice.
use python_workflow_service.Prelude.{
  String, ◌≡◌, refl, ◌∙◌, Bool, true, false, Option, none, some, Option-cases, [], ◌∷◌, find,
  Bool-cases, inl, inr,
}
use python_workflow_service.Value.{str, at, is_text, py_str, or_default}
use python_workflow_service.Value.Dict.{
  Row, get, has_key, insert, merge, erase, get-merge, last_write,
}
use python_workflow_service.Store.{Db, Env, ok, invoices, or_raise}
use python_workflow_service.Store.Query
use python_workflow_service.Store.Query.{in_scope, update_where, select_one}
use python_workflow_service.Store.Laws.{find-update_where_kept}
use python_workflow_service.Store.View.{Key, at_key, at_key-merge}
use python_workflow_service.Crud.Invoices
use python_workflow_service.Events.{diff_records, record_and_dispatch}
use python_workflow_service.Services.{
  Scope, missing_record, get_record, prepare_update_payload, service_event,
}
use python_workflow_service.Services.InvoiceService
use python_workflow_service.Services.PaymentService.{
  settlement_note, settle_open, settle, settle_linked_invoice,
}
use python_workflow_service.Services.PaymentService.Keeping.{
  Settled, when_ok-Held, bind-Keeps, or_raise-Keeps, record_and_dispatch-Keeps, note_status-Keeps,
  note_release-Keeps,
}

module _ (env : Env) (s : Scope) (invoice_id payment_id : String) (invoice : Row) (db : Db) where
  abbrev payload : Row
  payload = ("status", str "paid") ∷ ("payment_id", str payment_id) ∷ []

  abbrev IsFound : Type 0
  IsFound = find (in_scope s.tenant_id s.project_id invoice_id) (db.rows invoices) ≡ some invoice

  written :
      IsFound
      → Settled s invoice_id payment_id
          (Invoices.update env s.tenant_id s.project_id invoice_id payload db).1
  unfolding Invoices.update Invoices.update_conflicts has_key Query.update insert last_write
  written here =
      let values : Row =
        ("status", str "paid")
        ∷ ("payment_id", str payment_id)
        ∷ ("updated_at", at (env.now db.reads))
        ∷ [] in
      let k : Key = record {
        tenant_id = s.tenant_id;
        project_id = s.project_id;
        entity_id = invoice_id;
      } in
      (
        merge invoice values,
        find-update_where_kept (at_key k) (λ q. merge q values)
              (λ q stays. at_key-merge k q values (refl, refl, refl, refl) ∙ stays)
              (db.rows invoices)
            ∙ rw here refl,
        get-merge invoice values "status",
        get-merge invoice values "payment_id",
      )

  invoice_update-Settled :
      (note : String)
      → IsFound
      → Settled s invoice_id payment_id
          (InvoiceService.update env s invoice_id
            (("status", str "paid") ∷ ("payment_id", str payment_id) ∷ ("note", str note) ∷ [])
            db).1
  unfolding InvoiceService.update InvoiceService.write get_record Query.get_by_id select_one
      InvoiceService.prepare_update prepare_update_payload erase
  invoice_update-Settled note here = rw here (
      when_ok-Held env s invoice_id payment_id _
        (Invoices.update env s.tenant_id s.project_id invoice_id payload db) (written here)
        (λ updated.
          bind-Keeps env s invoice_id payment_id (or_raise updated missing_record) _
            (or_raise-Keeps env s invoice_id payment_id updated missing_record)
            (λ record'.
              bind-Keeps env s invoice_id payment_id
                (InvoiceService.note_status env s invoice_id (str note)
                  (InvoiceService.change_event invoice record') record')
                _
                (note_status-Keeps env s invoice_id payment_id (str note)
                  (InvoiceService.change_event invoice record') record')
                (λ noted.
                  bind-Keeps env s invoice_id payment_id
                    (record_and_dispatch env
                      (service_event "invoice" "updated" noted (diff_records invoice noted) s "fm"))
                    _ (record_and_dispatch-Keeps env s invoice_id payment_id _) (λ u db' h. h)))))

module _ (env : Env) (s : Scope) (payment : Row) (payment_id : String) (db : Db) where
  -- The invoice that the payment names.
  abbrev pub linked : Option Row
  linked =
      find (in_scope s.tenant_id s.project_id (py_str (get payment "invoice_id")))
        (db.rows invoices)

  settle_open-Settled :
      (invoice : Row)
      → linked ≡ some invoice
      → get payment "id" ≡ str payment_id
      → Settled s
          (py_str (get payment "invoice_id"))
          payment_id
          (settle_open env s payment invoice db).1
  unfolding settle_open
  settle_open-Settled invoice here named = rw named (
      when_ok-Held env s (py_str (get payment "invoice_id")) payment_id _
        (InvoiceService.update env s (py_str (get payment "invoice_id"))
          (("status", str "paid")
            ∷ ("payment_id", str payment_id)
            ∷ ("note", str (settlement_note payment invoice))
            ∷ [])
          db)
        (invoice_update-Settled env s (py_str (get payment "invoice_id")) payment_id invoice db
          (settlement_note payment invoice) here)
        (λ u.
          note_release-Keeps env s (py_str (get payment "invoice_id")) payment_id
            (or_default (get invoice "work_order_id") (get payment "work_order_id"))
            (settlement_note payment invoice)))

  -- What becomes of the linked invoice: it is settled where it is found and not paid, and nothing
  -- changes otherwise.
  abbrev pub Outcome : Bool → Type 0
  Outcome true = settle_linked_invoice env s payment db ≡ (ok tt, db)
  Outcome false =
      Settled s (py_str (get payment "invoice_id")) payment_id
        (settle_linked_invoice env s payment db).1

  abbrev pub is_done : Option Row → Bool
  is_done none = true
  is_done (some invoice) = is_text (get invoice "status") "paid"

  not_linked : linked ≡ none → settle_linked_invoice env s payment db ≡ (ok tt, db)
  unfolding settle_linked_invoice settle Invoices.get_by_id Query.get_by_id select_one
  not_linked missing = rw missing refl

  paid_before :
      (invoice : Row)
      → linked ≡ some invoice
      → is_text (get invoice "status") "paid" ≡ true
      → settle_linked_invoice env s payment db ≡ (ok tt, db)
  unfolding settle_linked_invoice settle Invoices.get_by_id Query.get_by_id select_one
  paid_before invoice here paid = rw (here, paid) refl

  paid_now :
      (invoice : Row)
      → linked ≡ some invoice
      → is_text (get invoice "status") "paid" ≡ false
      → get payment "id" ≡ str payment_id
      → Settled s
          (py_str (get payment "invoice_id"))
          payment_id
          (settle_linked_invoice env s payment db).1
  unfolding settle_linked_invoice settle Invoices.get_by_id Query.get_by_id select_one
  paid_now invoice here unpaid named = rw (here, unpaid) (settle_open-Settled invoice here named)

  -- A completed payment settles its invoice. If the invoice that it names is active in its scope and
  -- not paid, then, whatever becomes of the entries in the timelines, the invoice is found
  -- afterwards with the status paid and the id of the payment. If the invoice is not found, or is
  -- paid already, nothing changes and nothing is raised.
  pub settle_linked_invoice_lem : get payment "id" ≡ str payment_id → Outcome (is_done linked)
  settle_linked_invoice_lem named = elim (Option-cases linked) [
    | inl missing ↦ rw missing (not_linked missing)
    | inr (invoice, here) ↦ elim (Bool-cases (is_text (get invoice "status") "paid")) [
      | inl paid ↦ rw (here, paid) (paid_before invoice here paid)
      | inr unpaid ↦ rw (here, unpaid) (paid_now invoice here unpaid named)
    ]
  ]
