-- ===== src/Api/VendorPortal.antt =====
-- src/app/api/v1/vendor_portal.py, behind `get_work_order_from_vendor_token` of
-- src/app/core/security/vendor_auth.py; a header that is missing or blank is refused before.
use python_workflow_service.Prelude.{String, ◌∷◌, [], map, pos, arith}
use python_workflow_service.Value.{num, seq, obj, items_of}
use python_workflow_service.Value.Dict.{Row, fields_of}
use python_workflow_service.Store.{Env, Action, pure, ◌>>=◌}
use python_workflow_service.Http.{Web, Response, dump_all, success_response}
use python_workflow_service.Services.VendorPortal
use python_workflow_service.Api.Reply.{
  retrieved, created, updated, Answers, when_ok-Succeeds, once-Answers, reply-Answers,
}

pub data Request : Type 0 where
  work_order : Request
  update : Row → Request
  submit_invoice : Row → Request
  list_invoices : Request

module _ (w : Web) (env : Env) (language : String) where
  unfoldable pub vendor_get_work_order : Row → Action Response
  vendor_get_work_order owned = retrieved w language "WorkOrderResponse" owned

  unfoldable pub vendor_update_work_order : Row → Row → Action Response
  vendor_update_work_order owned body = do
    record' ← VendorPortal.update_work_order env owned body
    updated w language "WorkOrderResponse" record'

  unfoldable pub vendor_submit_invoice : Row → Row → Action Response
  vendor_submit_invoice owned body = do
    record' ← VendorPortal.submit_invoice env owned body
    created w language "InvoiceResponse" record'

  unfoldable pub vendor_list_invoices : Row → Action Response
  unfolding dump_all success_response
  vendor_list_invoices owned = do
    found ← VendorPortal.list_invoices owned
    items ← dump_all w "InvoiceResponse" found.0
    let payload : Row =
        ("items", seq (items_of (map (λ item. obj (fields_of item)) items)))
        ∷ ("total", num (pos found.1))
        ∷ []
    pure
        (success_response w language "success.lists_retrieved" 200 "2000" (obj (fields_of payload)))

  unfoldable pub handle : Request → Row → Action Response
  handle work_order owned = vendor_get_work_order owned
  handle (update body) owned = vendor_update_work_order owned body
  handle (submit_invoice body) owned = vendor_submit_invoice owned body
  handle list_invoices owned = vendor_list_invoices owned

  -- A request with the token of a work order.
  unfoldable pub with_token : String → Request → Action Response
  with_token vendor_token request = do
    owned ← VendorPortal.get_work_order env vendor_token
    handle request owned

  pub handle-Answers : (r : Request) (owned : Row) → Answers (handle r owned)
  unfolding handle vendor_get_work_order vendor_update_work_order vendor_submit_invoice
      vendor_list_invoices
  handle-Answers work_order owned db = once-Answers w language _ _ _ owned db
  handle-Answers (update body) owned db =
      when_ok-Succeeds _ _ (λ row. once-Answers w language _ _ _ row)
  handle-Answers (submit_invoice body) owned db =
      when_ok-Succeeds _ _ (λ row. reply-Answers w language _ _ 201 _ row (omega arith))
  handle-Answers list_invoices owned db =
      when_ok-Succeeds (VendorPortal.list_invoices owned db) _ (λ found db'.
        when_ok-Succeeds (dump_all w "InvoiceResponse" found.0 db') _ (λ items db''. omega arith))

  pub with_token-Answers :
      (vendor_token : String) (r : Request) → Answers (with_token vendor_token r)
  unfolding with_token
  with_token-Answers vendor_token r db = when_ok-Succeeds _ _ (λ owned. handle-Answers r owned)
