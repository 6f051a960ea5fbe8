-- ===== src/Api/PdfTemplates.antt =====
-- src/app/api/v1/pdf_templates.py.
use python_workflow_service.Prelude.{[], String, length, ltb, if◌then◌else◌, arith}
use python_workflow_service.Value.Dict.{Row}
use python_workflow_service.Store.{Env, Action, pure, pdf_templates, ◌>>=◌}
use python_workflow_service.Http.{Web, Response, dump_all, list_response}
use python_workflow_service.Services.{Scope, get_record}
use python_workflow_service.Services.PdfTemplateService
use python_workflow_service.Api.Reply.{
  retrieved, created, updated, deleted, Answers, when_ok-Succeeds, once-Answers, reply-Answers,
}

-- The routes with their parameters.
pub data Request : Type 0 where
  list : Request
  retrieve : String → Request
  create : Row → Request
  update : String → Row → Request
  delete : String → Request

-- The body of the request; `[]` where it has none.
unfoldable pub body_of : Request → Row
body_of (create body) = body
body_of (update entity_id body) = body
body_of r = []

module _ (w : Web) (env : Env) (language : String) (s : Scope) where
  -- One page holds all, of at least one row.
  unfoldable pub list_pdf_templates : Action Response
  unfolding list_response dump_all
  list_pdf_templates = do
    items ← PdfTemplateService.list s
    payload ← dump_all w "PdfTemplateResponse" items
    let page_size = if ltb (length payload) 1 then 1 else length payload
    pure (list_response w language payload (length payload) 1 page_size)

  unfoldable pub get_pdf_template : String → Action Response
  get_pdf_template entity_id = do
    record' ← get_record pdf_templates s entity_id
    retrieved w language "PdfTemplateResponse" record'

  unfoldable pub create_pdf_template : Row → Action Response
  create_pdf_template body = do
    record' ← PdfTemplateService.create env s body
    created w language "PdfTemplateResponse" record'

  unfoldable pub update_pdf_template : String → Row → Action Response
  update_pdf_template entity_id body = do
    record' ← PdfTemplateService.update env s entity_id body
    updated w language "PdfTemplateResponse" record'

  unfoldable pub delete_pdf_template : String → Action Response
  delete_pdf_template entity_id = do
    deleted_id ← PdfTemplateService.delete env s entity_id
    deleted w language "DeleteIdResponse" deleted_id

  unfoldable pub handle : Request → Action Response
  handle list = list_pdf_templates
  handle (retrieve entity_id) = get_pdf_template entity_id
  handle (create body) = create_pdf_template body
  handle (update entity_id body) = update_pdf_template entity_id body
  handle (delete entity_id) = delete_pdf_template entity_id

  pub handle-Answers : (r : Request) → Answers (handle r)
  unfolding handle list_pdf_templates get_pdf_template create_pdf_template update_pdf_template
      delete_pdf_template
  handle-Answers list db = when_ok-Succeeds (PdfTemplateService.list s db) _ (λ items db'.
      when_ok-Succeeds (dump_all w "PdfTemplateResponse" items db') _ (λ payload db''. omega arith))
  handle-Answers (retrieve entity_id) db =
      when_ok-Succeeds _ _ (λ row. once-Answers w language _ _ _ row)
  handle-Answers (create body) db =
      when_ok-Succeeds _ _ (λ row. reply-Answers w language _ _ 201 _ row (omega arith))
  handle-Answers (update entity_id body) db =
      when_ok-Succeeds _ _ (λ row. once-Answers w language _ _ _ row)
  handle-Answers (delete entity_id) db =
      when_ok-Succeeds _ _ (λ id. once-Answers w language _ _ _ _)
