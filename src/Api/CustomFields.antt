-- ===== src/Api/CustomFields.antt =====
-- src/app/api/v1/custom_fields.py.
use python_workflow_service.Prelude.{[], ℕ, String, arith}
use python_workflow_service.Value.Dict.{Row}
use python_workflow_service.Store.{Env, Action, custom_fields, ◌>>=◌}
use python_workflow_service.Http.{Web, Response}
use python_workflow_service.Services.{Scope, get_record}
use python_workflow_service.Services.CustomFieldService
use python_workflow_service.Api.Reply.{
  retrieved, created, updated, deleted, listed, Answers, when_ok-Succeeds, listed-Answers,
  once-Answers, reply-Answers,
}

-- The routes with their parameters.
pub data Request : Type 0 where
  list : ℕ → ℕ → String → String → String → Request
  retrieve : String → Request
  create : Row → Request
  update : String → Row → Request
  delete : String → Request

-- The body of the request; `[]` where it has none.
unfoldable pub body_of : Request → Row
body_of (create body) = body
body_of (update entity_id body) = body
body_of r = []

module _ (w : Web) (env : Env) (language : String) (s : Scope) where
  unfoldable pub list_custom_fields : ℕ → ℕ → String → String → String → Action Response
  unfolding listed
  list_custom_fields page page_size term scope category_id = do
    found ← CustomFieldService.page_of env s page page_size term scope category_id
    listed w language "CustomFieldResponse" page page_size found

  unfoldable pub get_custom_field : String → Action Response
  get_custom_field entity_id = do
    record' ← get_record custom_fields s entity_id
    retrieved w language "CustomFieldResponse" record'

  unfoldable pub create_custom_field : Row → Action Response
  create_custom_field body = do
    record' ← CustomFieldService.create env s body
    created w language "CustomFieldResponse" record'

  unfoldable pub update_custom_field : String → Row → Action Response
  update_custom_field entity_id body = do
    record' ← CustomFieldService.update env s entity_id body
    updated w language "CustomFieldResponse" record'

  unfoldable pub delete_custom_field : String → Action Response
  delete_custom_field entity_id = do
    deleted_id ← CustomFieldService.delete env s entity_id
    deleted w language "DeleteCustomFieldResponse" deleted_id

  unfoldable pub handle : Request → Action Response
  handle (list page page_size term scope category_id) =
      list_custom_fields page page_size term scope category_id
  handle (retrieve entity_id) = get_custom_field entity_id
  handle (create body) = create_custom_field body
  handle (update entity_id body) = update_custom_field entity_id body
  handle (delete entity_id) = delete_custom_field entity_id

  pub handle-Answers : (r : Request) → Answers (handle r)
  unfolding handle list_custom_fields get_custom_field create_custom_field update_custom_field
      delete_custom_field
  handle-Answers (list page page_size term scope category_id) db =
      when_ok-Succeeds _ _ (λ found. listed-Answers w language _ page page_size found)
  handle-Answers (retrieve entity_id) db =
      when_ok-Succeeds _ _ (λ row. once-Answers w language _ _ _ row)
  handle-Answers (create body) db =
      when_ok-Succeeds _ _ (λ row. reply-Answers w language _ _ 201 _ row (omega arith))
  handle-Answers (update entity_id body) db =
      when_ok-Succeeds _ _ (λ row. once-Answers w language _ _ _ row)
  handle-Answers (delete entity_id) db =
      when_ok-Succeeds _ _ (λ id. once-Answers w language _ _ _ _)
