-- ===== src/Services/PaymentService/Keeping.antt =====
-- An invoice that is paid by a payment stays so in the steps that follow: those of `update` of
-- src/app/business/services/invoice_service.py, and of `_settle_linked_invoice` of
-- src/app/business/services/payment_service.py.
use python_workflow_service.Prelude.{
  String, ◌≡◌, refl, ◌∙◌, false, Option, none, some, Option-cases, [], ◌∷◌, find, str_eq,
  Bool-cases, inl, inr, if◌then◌else◌,
}
use python_workflow_service.Value.{Value, str, null, at, truthy, py_str}
use python_workflow_service.Value.Dict.{
  Row, get, has_key, insert, merge, get-merge, has_key-insert, last_write_absent,
}
use python_workflow_service.Timeline.{new_timeline_event, append_event}
use python_workflow_service.Store.{
  Db, Env, Table, Action, Result, ok, err, Error, invoices, work_orders, pure, or_raise, when_ok,
  ◌>>=◌,
}
use python_workflow_service.Store.Query
use python_workflow_service.Store.Query.{column_is, in_scope, update_where, select_one}
use python_workflow_service.Store.Laws.{find-update_where_kept}
use python_workflow_service.Store.View.{Key, at_key, KeepsScope, at_key-merge}
use python_workflow_service.Crud.Invoices
use python_workflow_service.Crud.WorkOrders
use python_workflow_service.Events.{Event, record_and_dispatch}
use python_workflow_service.Events.Laws.{record_and_dispatch_frame}
use python_workflow_service.Services.{Scope, missing_record, get_record, service_event}
use python_workflow_service.Services.InvoiceService
use python_workflow_service.Services.WorkOrderService
use python_workflow_service.Services.PaymentService.{note_release}

-- The invoice is paid by the payment.
abbrev pub Settled : Scope → String → String → Db → Type 0
Settled s invoice_id payment_id db =
    (r : Row) × (find (in_scope s.tenant_id s.project_id invoice_id) (db.rows invoices) ≡ some r)
    × (get r "status" ≡ str "paid")
    × (get r "payment_id" ≡ str payment_id)

module _ (env : Env) (s : Scope) (invoice_id payment_id : String) where
  abbrev pub Held : Db → Type 0
  Held db = Settled s invoice_id payment_id db

  abbrev pub Keeps {ℓ} : {A : Type ℓ} → Action A → Type 0
  Keeps act = (db : Db) → Held db → Held (act db).1

  pub when_ok-Held :
      {A B : Type 0} (k : A → Action B) (r : Result A × Db)
      → Held r.1
      → ((a : A) → Keeps (k a))
      → Held (when_ok r k).1
  when_ok-Held k (ok a, db) here keeps = keeps a db here
  when_ok-Held k (err e, db) here keeps = here

  pub bind-Keeps :
      {A B : Type 0} (m : Action A) (k : A → Action B)
      → Keeps m
      → ((a : A) → Keeps (k a))
      → Keeps (m >>= k)
  bind-Keeps m k hm hk db here = when_ok-Held k (m db) (hm db here) hk

  pub or_raise-Keeps : {A : Type 0} (o : Option A) (e : Error) → Keeps (or_raise o e)
  or_raise-Keeps none e db here = here
  or_raise-Keeps (some a) e db here = here

  -- A step that does not write invoices.
  same_invoices : (db db' : Db) → db'.rows invoices ≡ db.rows invoices → Held db → Held db'
  same_invoices db db' same here = rw same here

  pub record_and_dispatch-Keeps : (e : Event) → Keeps (record_and_dispatch env e)
  record_and_dispatch-Keeps e db here =
      let (db', run, kept) = record_and_dispatch_frame env e db in
      rw run (same_invoices db db' (kept invoices refl refl) here)

  -- A write that names no column of the scope, no status and no payment.
  update-Keeps :
      (data' : Row)
      → KeepsScope data'
      → has_key data' "status" ≡ false
      → has_key data' "payment_id" ≡ false
      → Keeps (Query.update env invoices s.tenant_id s.project_id invoice_id data')
  unfolding Query.update
  update-Keeps data' (h1, h2, h3, h4) h5 h6 db (r, found, paid, by_it) =
      let values = insert "updated_at" (at (env.now db.reads)) data' in
      let named : (c : String)
          → str_eq "updated_at" c ≡ false
          → has_key data' c ≡ false
          → has_key values c ≡ false =
        λ c other' h. has_key-insert "updated_at" c _ data' ∙ rw (other', h) refl in
      let k : Key = record {
        tenant_id = s.tenant_id;
        project_id = s.project_id;
        entity_id = invoice_id;
      } in
      let keeps : KeepsScope values = (
        named "id" refl h1,
        named "tenant_id" refl h2,
        named "project_id" refl h3,
        named "record_status" refl h4,
      ) in
      (
        merge r values,
        find-update_where_kept (at_key k) (λ q. merge q values)
              (λ q here. at_key-merge k q values keeps ∙ here) (db.rows invoices)
            ∙ rw found refl,
        get-merge r values "status"
            ∙ last_write_absent values "status" _ (named "status" refl h5)
            ∙ paid,
        get-merge r values "payment_id"
            ∙ last_write_absent values "payment_id" _ (named "payment_id" refl h6)
            ∙ by_it,
      )

  -- The same of `update` of the invoices, which has no conflict where no number is written.
  update-invoice-Keeps :
      (data' : Row)
      → KeepsScope data'
      → has_key data' "status" ≡ false
      → has_key data' "payment_id" ≡ false
      → has_key data' "invoice_number" ≡ false
      → Keeps (Invoices.update env s.tenant_id s.project_id invoice_id data')
  unfolding Invoices.update Invoices.update_conflicts
  update-invoice-Keeps data' h h5 h6 h7 db here = rw h7 (update-Keeps data' h h5 h6 db here)

  -- The part of `append_timeline` for an invoice that is found.
  abbrev append_entry : Row → Value → Action (Option Value)
  append_entry r entry = do
    updated ←
        Invoices.update env s.tenant_id s.project_id invoice_id
          (("timeline", append_event (get r "timeline") entry) ∷ [])
    pure (elim updated [ none ↦ none | some u ↦ some (get u "timeline") ])

  append_entry-Keeps : (r : Row) (entry : Value) → Keeps (append_entry r entry)
  unfolding has_key
  append_entry-Keeps r entry =
      bind-Keeps
        (Invoices.update env s.tenant_id s.project_id invoice_id
          (("timeline", append_event (get r "timeline") entry) ∷ []))
        _
        (update-invoice-Keeps (("timeline", append_event (get r "timeline") entry) ∷ [])
          (refl, refl, refl, refl) refl refl refl)
        (λ u db h. h)

  new_timeline_event-Keeps : (event : Row) → Keeps (new_timeline_event env event)
  unfolding new_timeline_event
  new_timeline_event-Keeps event db here = here

  invoice_timeline-Keeps :
      (event : Row) → Keeps (Invoices.append_timeline env s.tenant_id s.project_id invoice_id event)
  unfolding Invoices.append_timeline Invoices.get_by_id Query.get_by_id select_one
  invoice_timeline-Keeps event db (r, found, paid, by_it) = rw found (
      bind-Keeps (new_timeline_event env event) (append_entry r) (new_timeline_event-Keeps event)
        (append_entry-Keeps r) db (r, found, paid, by_it))

  work_order_timeline-Keeps :
      (work_order_id : String) (event : Row)
      → Keeps (WorkOrders.append_timeline env s.tenant_id s.project_id work_order_id event)
  unfolding WorkOrders.append_timeline WorkOrders.get_by_id Query.get_by_id select_one
      WorkOrders.update Query.update new_timeline_event
  work_order_timeline-Keeps work_order_id event db here =
      elim (Option-cases
        (find (in_scope s.tenant_id s.project_id work_order_id) (db.rows work_orders))) [
          | inl missing ↦ rw missing here
          | inr (r, found) ↦ rw found here
        ]

  get_record-Keeps : (t : Table) (id : String) → Keeps (get_record t s id)
  unfolding get_record Query.get_by_id select_one
  get_record-Keeps t id db here =
      or_raise-Keeps (find (in_scope s.tenant_id s.project_id id) (db.rows t)) missing_record db
        here

  append_timeline-Keeps :
      (work_order_id : String) (e : WorkOrderService.Entry)
      → Keeps (WorkOrderService.append_timeline env s work_order_id e)
  unfolding WorkOrderService.append_timeline
  append_timeline-Keeps work_order_id e =
      bind-Keeps
        (WorkOrders.append_timeline env s.tenant_id s.project_id work_order_id
          (WorkOrderService.entry_data e))
        _ (work_order_timeline-Keeps work_order_id (WorkOrderService.entry_data e))
        (λ appended.
          bind-Keeps (or_raise appended missing_record) _ (or_raise-Keeps appended missing_record)
            (λ timeline.
              bind-Keeps (get_record work_orders s work_order_id) _
                (get_record-Keeps work_orders work_order_id)
                (λ record'.
                  bind-Keeps
                    (record_and_dispatch env
                      (service_event "work_order" "updated" record' [] s "fm"))
                    _ (record_and_dispatch-Keeps _) (λ u db h. h))))

  abbrev release : String → WorkOrderService.Entry
  release note = record {
    event_type = "payment_released";
    note = some note;
    by_whom = none;
    from_state = none;
    to_state = none;
  }

  pub note_release-Keeps :
      (work_order_id : Value) (note : String) → Keeps (note_release env s work_order_id note)
  unfolding note_release
  note_release-Keeps work_order_id note db here = elim (Bool-cases (truthy work_order_id)) [
    | inl given ↦ rw given (
        bind-Keeps (WorkOrderService.append_timeline env s (py_str work_order_id) (release note)) _
          (append_timeline-Keeps (py_str work_order_id) (release note)) (λ u db' h. h) db here)
    | inr absent ↦ rw absent here
  ]

  abbrev noted : Value → Value
  noted note = if truthy note then note else null

  abbrev entry : String → Value → Row
  entry type note = ("type", str type) ∷ ("note", note) ∷ ("by", null) ∷ []

  pub note_status-Keeps :
      (note : Value) (type : Option String) (record' : Row)
      → Keeps (InvoiceService.note_status env s invoice_id note type record')
  unfolding InvoiceService.note_status InvoiceService.append_timeline
  note_status-Keeps note none record' = λ db here. here
  note_status-Keeps note (some type) record' =
      bind-Keeps (InvoiceService.append_timeline env s invoice_id type (noted note) null) _
        (bind-Keeps
          (Invoices.append_timeline env s.tenant_id s.project_id invoice_id
            (entry type (noted note)))
          _ (invoice_timeline-Keeps (entry type (noted note)))
          (λ appended. or_raise-Keeps appended missing_record))
        (λ u. get_record-Keeps invoices invoice_id)
