-- ===== src/Api/Isolation/Billing.antt =====
-- The routes of src/app/api/v1 to the invoices and the payments leave the rows of other tenants and projects
-- alone.
use python_workflow_service.Prelude.{String, ◌≡◌, refl, false}
use python_workflow_service.Prelude.Text.{is_empty}
use python_workflow_service.Store.{Env, payments, invoices}
use python_workflow_service.Store.Query.{list_page}
use python_workflow_service.Store.Outside.{Unscoped, Kept-refl}
use python_workflow_service.Http.{Web}
use python_workflow_service.Crud.Invoices as CrudInvoices
use python_workflow_service.Services.{Scope, get_record}
use python_workflow_service.Services.InvoiceService
use python_workflow_service.Services.Isolation.{Stays, bind-Stays, get_record-Stays}
use python_workflow_service.Services.Isolation.Invoicing.{
  create_invoice-Stays, update_invoice-Stays, delete_invoice-Stays, append_invoice_timeline-Stays,
}
use python_workflow_service.Api.Invoices
use python_workflow_service.Api.Isolation.Replies.{replied-Stays, removed-Stays, paged-Stays}
use python_workflow_service.Crud.Payments as CrudPayments
use python_workflow_service.Services.PaymentService
use python_workflow_service.Api.Payments
use python_workflow_service.Services.Isolation.Paying.{
  create_payment-Stays, update_payment-Stays, delete_payment-Stays,
}

module _ (w : Web) (language : String) (s : Scope) (env : Env) where
  pub invoices-Stays :
      (tenant_given : is_empty s.tenant_id ≡ false) (project_given : is_empty s.project_id ≡ false)
      (r : Invoices.Request)
      → Unscoped (Invoices.body_of r)
      → Stays s (Invoices.handle w env language s r)
  unfolding Invoices.handle Invoices.list_invoices Invoices.get_invoice Invoices.create_invoice
      Invoices.update_invoice Invoices.delete_invoice Invoices.append_invoice_timeline
      InvoiceService.page_of CrudInvoices.list list_page Invoices.body_of
  invoices-Stays tenant_given project_given (Invoices.list page page_size work_order_id status) h =
      paged-Stays w language s (InvoiceService.page_of s page page_size work_order_id status)
        "InvoiceResponse" page page_size (λ db. Kept-refl s.tenant_id s.project_id db db refl)
  invoices-Stays tenant_given project_given (Invoices.retrieve entity_id) h =
      replied-Stays w language s (get_record invoices s entity_id) "InvoiceResponse" _ _ _
        (get_record-Stays s invoices entity_id)
  invoices-Stays tenant_given project_given (Invoices.create body) h =
      replied-Stays w language s (InvoiceService.create env s "fm" body) "InvoiceResponse" _ _ _
        (create_invoice-Stays env s tenant_given project_given "fm" body h)
  invoices-Stays tenant_given project_given (Invoices.update entity_id body) h =
      replied-Stays w language s (InvoiceService.update env s entity_id body) "InvoiceResponse" _ _
        _ (update_invoice-Stays env s tenant_given project_given entity_id body h)
  invoices-Stays tenant_given project_given (Invoices.delete entity_id) h =
      removed-Stays w language s (InvoiceService.delete env s entity_id) "DeleteIdResponse"
        (delete_invoice-Stays env s tenant_given project_given entity_id)
  invoices-Stays tenant_given project_given
        (Invoices.append_timeline entity_id event_type note by_whom) h =
      bind-Stays s (InvoiceService.append_timeline env s entity_id event_type note by_whom) _
        (append_invoice_timeline-Stays env s tenant_given project_given entity_id event_type note
          by_whom)
        (λ timeline db. Kept-refl s.tenant_id s.project_id db db refl)

  pub payments-Stays :
      (tenant_given : is_empty s.tenant_id ≡ false) (project_given : is_empty s.project_id ≡ false)
      (r : Payments.Request)
      → Unscoped (Payments.body_of r)
      → Stays s (Payments.handle w env language s r)
  unfolding Payments.handle Payments.list_payments Payments.get_payment Payments.create_payment
      Payments.update_payment Payments.delete_payment PaymentService.page_of CrudPayments.list
      list_page Payments.body_of
  payments-Stays tenant_given project_given (Payments.list page page_size invoice_id) h =
      paged-Stays w language s (PaymentService.page_of s page page_size invoice_id)
        "PaymentResponse" page page_size (λ db. Kept-refl s.tenant_id s.project_id db db refl)
  payments-Stays tenant_given project_given (Payments.retrieve entity_id) h =
      replied-Stays w language s (get_record payments s entity_id) "PaymentResponse" _ _ _
        (get_record-Stays s payments entity_id)
  payments-Stays tenant_given project_given (Payments.create body) h =
      replied-Stays w language s (PaymentService.create env s body) "PaymentResponse" _ _ _
        (create_payment-Stays env s tenant_given project_given body h)
  payments-Stays tenant_given project_given (Payments.update entity_id body) h =
      replied-Stays w language s (PaymentService.update env s entity_id body) "PaymentResponse" _ _
        _ (update_payment-Stays env s tenant_given project_given entity_id body h)
  payments-Stays tenant_given project_given (Payments.delete entity_id) h =
      removed-Stays w language s (PaymentService.delete env s entity_id) "DeleteIdResponse"
        (delete_payment-Stays env s tenant_given project_given entity_id)
