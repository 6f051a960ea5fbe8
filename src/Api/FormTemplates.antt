-- ===== src/Api/FormTemplates.antt =====
-- src/app/api/v1/form_templates.py.
use python_workflow_service.Prelude.{ℕ, String, Option, arith}
use python_workflow_service.Value.{Value}
use python_workflow_service.Store.{Env, Action, form_templates, ◌>>=◌}
use python_workflow_service.Http.{Web, Response}
use python_workflow_service.Services.{Scope, get_record}
use python_workflow_service.Services.FormTemplateService
use python_workflow_service.Api.Reply.{
  retrieved, created, updated, deleted, listed, Answers, when_ok-Succeeds, listed-Answers,
  once-Answers, reply-Answers,
}

-- The routes with their parameters.
pub data Request : Type 0 where
  list : ℕ → ℕ → String → Request
  retrieve : String → Request
  create : String → String → Value → Request
  update : String → Option String → Option String → Option Value → Request
  delete : String → Request

module _ (w : Web) (env : Env) (language : String) (s : Scope) where
  unfoldable pub list_form_templates : ℕ → ℕ → String → Action Response
  unfolding listed
  list_form_templates page page_size term = do
    found ← FormTemplateService.page_of env s page page_size term
    listed w language "FormTemplateResponse" page page_size found

  unfoldable pub get_form_template : String → Action Response
  get_form_template entity_id = do
    record' ← get_record form_templates s entity_id
    retrieved w language "FormTemplateResponse" record'

  unfoldable pub create_form_template : String → String → Value → Action Response
  create_form_template name description schema = do
    record' ← FormTemplateService.create env s name description schema
    created w language "FormTemplateResponse" record'

  unfoldable pub update_form_template :
      String → Option String → Option String → Option Value → Action Response
  update_form_template entity_id name description schema = do
    record' ← FormTemplateService.update env s entity_id name description schema
    updated w language "FormTemplateResponse" record'

  unfoldable pub delete_form_template : String → Action Response
  delete_form_template entity_id = do
    deleted_id ← FormTemplateService.delete env s entity_id
    deleted w language "DeleteIdResponse" deleted_id

  unfoldable pub handle : Request → Action Response
  handle (list page page_size term) = list_form_templates page page_size term
  handle (retrieve entity_id) = get_form_template entity_id
  handle (create name description schema) = create_form_template name description schema
  handle (update entity_id name description schema) =
      update_form_template entity_id name description schema
  handle (delete entity_id) = delete_form_template entity_id

  pub handle-Answers : (r : Request) → Answers (handle r)
  unfolding handle list_form_templates get_form_template create_form_template update_form_template
      delete_form_template
  handle-Answers (list page page_size term) db =
      when_ok-Succeeds _ _ (λ found. listed-Answers w language _ page page_size found)
  handle-Answers (retrieve entity_id) db =
      when_ok-Succeeds _ _ (λ row. once-Answers w language _ _ _ row)
  handle-Answers (create name description schema) db =
      when_ok-Succeeds _ _ (λ row. reply-Answers w language _ _ 201 _ row (omega arith))
  handle-Answers (update entity_id name description schema) db =
      when_ok-Succeeds _ _ (λ row. once-Answers w language _ _ _ row)
  handle-Answers (delete entity_id) db =
      when_ok-Succeeds _ _ (λ id. once-Answers w language _ _ _ _)
