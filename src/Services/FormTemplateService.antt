-- ===== src/Services/FormTemplateService.antt =====
-- `class FormTemplateService` of src/app/business/services/form_template_service.py.
use python_workflow_service.Prelude.{
  ℕ, String, Option, none, some, List, [], ◌∷◌, ◌++◌, if◌then◌else◌,
}
use python_workflow_service.Prelude.Text.{strip}
use python_workflow_service.Value.{Value, str, obj, end, or_default}
use python_workflow_service.Value.Dict.{Row}
use python_workflow_service.Store.{Env, Action, form_templates, pure, raise, or_raise, ◌>>=◌}
use python_workflow_service.Crud.FormTemplates
use python_workflow_service.Services.{Scope, missing_record, get_record}

abbrev given_text : String → (String → String) → Option String → Row
given_text key f none = []
given_text key f (some s) = (key, str (f s)) ∷ []

abbrev given_value : String → Option Value → Row
given_value key none = []
given_value key (some v) = (key, v) ∷ []

-- The `data` of `update`.
unfoldable pub update_data : Option String → Option String → Option Value → Row
update_data name description schema =
    given_text "name" strip name
    ++ given_text "description" (λ s. s) description
    ++ given_value "schema" schema

-- `list`.
unfoldable pub page_of : Env → Scope → ℕ → ℕ → String → Action (List Row × ℕ)
page_of env s page page_size term =
    FormTemplates.list env s.tenant_id s.project_id page page_size term

module _ (env : Env) (s : Scope) where
  unfoldable pub create : String → String → Value → Action Row
  create name description schema =
      FormTemplates.create env s.tenant_id s.project_id (strip name) description
        (or_default schema (obj end))

  unfoldable pub write : String → Row → Action Row
  write entity_id [] = get_record form_templates s entity_id
  write entity_id (entry ∷ entries) = do
    updated ← FormTemplates.update env s.tenant_id s.project_id entity_id (entry ∷ entries)
    or_raise updated missing_record

  unfoldable pub update : String → Option String → Option String → Option Value → Action Row
  update entity_id name description schema = write entity_id (update_data name description schema)

  unfoldable pub delete : String → Action String
  delete entity_id = do
    deleted ← FormTemplates.soft_delete env s.tenant_id s.project_id entity_id
    (if deleted then pure entity_id else raise missing_record)
