-- ===== src/Services/PdfTemplateService.antt =====
-- `class PdfTemplateService` of src/app/business/services/pdf_template_service.py.
use python_workflow_service.Prelude.{String, List, [], ◌∷◌, if◌then◌else◌}
use python_workflow_service.Value.{seq, nil}
use python_workflow_service.Value.Dict.{Row, set_default}
use python_workflow_service.Store.{Env, Action, pdf_templates, pure, raise, or_raise, ◌>>=◌}
use python_workflow_service.Crud.PdfTemplates
use python_workflow_service.Services.{Scope, missing_record, get_record}
use python_workflow_service.Services.BusinessProfileService.{without_none}

unfoldable pub list : Scope → Action (List Row)
list s = PdfTemplates.list s.tenant_id s.project_id

module _ (env : Env) (s : Scope) where
  unfoldable pub create : Row → Action Row
  create data' =
      PdfTemplates.create env s.tenant_id s.project_id (set_default "schemas" (seq nil) data')

  -- The part of `update` after the payload is made.
  unfoldable pub write : String → Row → Action Row
  write entity_id [] = get_record pdf_templates s entity_id
  write entity_id (entry ∷ entries) = do
    updated ← PdfTemplates.update env s.tenant_id s.project_id entity_id (entry ∷ entries)
    or_raise updated missing_record

  unfoldable pub update : String → Row → Action Row
  update entity_id data' = write entity_id (without_none data')

  unfoldable pub delete : String → Action String
  delete entity_id = do
    deleted ← PdfTemplates.soft_delete env s.tenant_id s.project_id entity_id
    (if deleted then pure entity_id else raise missing_record)
