-- ===== src/Services/Isolation/Printing.antt =====
-- The service of the PDF templates, src/app/business/services/pdf_template_service.py, leaves the rows of other
-- tenants and projects alone: also the clearing of the other defaults.
use python_workflow_service.Prelude.{
  String, ◌≡◌, refl, true, false, ◌∙◌, Option, none, some, [], ◌∷◌, arith, ◌+◌,
}
use python_workflow_service.Value.{bool, str, at, seq, nil, truthy, py_str}
use python_workflow_service.Value.Dict.{Row, get, has_key, merge, set_default}
use python_workflow_service.Models.{pdf_template_defaults}
use python_workflow_service.Store.{Env, pdf_templates, pure}
use python_workflow_service.Store.Query
use python_workflow_service.Store.Query.{in_scope}
use python_workflow_service.Store.Outside.{
  Unscoped, owns, update-Keeps, create-Keeps, owns-merge, put_rows-Kept, others-update_where,
  set_default-absent,
}
use python_workflow_service.Crud.PdfTemplates
use python_workflow_service.Crud.PdfTemplates.{is_other_default}
use python_workflow_service.Services.{Scope}
use python_workflow_service.Services.BusinessProfileService.{without_none}
use python_workflow_service.Services.PdfTemplateService
use python_workflow_service.Services.Isolation.{
  Stays, get_record-Stays, decided-Stays, same-Stays, bind-Stays, deleted-Stays, found-Stays,
  without_none-absent,
}

other_default-owns :
    (tenant_id project_id doc_type keep_id : String) (r : Row)
    → is_other_default tenant_id project_id doc_type keep_id r ≡ true
    → owns tenant_id project_id r ≡ true
unfolding is_other_default
other_default-owns tenant_id project_id doc_type keep_id r h = ground arith

in_scope-owns :
    (tenant_id project_id entity_id : String) (r : Row)
    → in_scope tenant_id project_id entity_id r ≡ true
    → owns tenant_id project_id r ≡ true
unfolding in_scope
in_scope-owns tenant_id project_id entity_id r h = ground arith

module _ (env : Env) (s : Scope) where
  clear_other_defaults-Stays :
      (doc_type keep_id : String)
      → Stays s (PdfTemplates.clear_other_defaults env s.tenant_id s.project_id doc_type keep_id)
  unfolding PdfTemplates.clear_other_defaults has_key
  clear_other_defaults-Stays doc_type keep_id db =
      let values : Row = ("is_default", bool false) ∷ ("updated_at", at (env.now db.reads)) ∷ [] in
      put_rows-Kept s.tenant_id s.project_id pdf_templates _ db
        (others-update_where s.tenant_id s.project_id
          (is_other_default s.tenant_id s.project_id doc_type keep_id) (λ r. merge r values)
          (λ r hit.
            let own = other_default-owns s.tenant_id s.project_id doc_type keep_id r hit in
            (own, owns-merge s.tenant_id s.project_id r values (refl, refl) ∙ own))
          (db.rows pdf_templates))
        _ refl

  clear_after-Stays :
      (row : Row) → Stays s (PdfTemplates.clear_after env s.tenant_id s.project_id row)
  unfolding PdfTemplates.clear_after
  clear_after-Stays row =
      decided-Stays s (truthy (get row "is_default")) _ _
        (bind-Stays s
          (PdfTemplates.clear_other_defaults env s.tenant_id s.project_id
            (py_str (get row "doc_type")) (py_str (get row "id")))
          (λ done. pure row)
          (clear_other_defaults-Stays (py_str (get row "doc_type")) (py_str (get row "id")))
          (λ _. same-Stays s row))
        (same-Stays s row)

  clear_found-Stays :
      (found : Option Row) → Stays s (PdfTemplates.clear_found env s.tenant_id s.project_id found)
  unfolding PdfTemplates.clear_found
  clear_found-Stays none = same-Stays s {A = Option Row} none
  clear_found-Stays (some row) =
      bind-Stays s (PdfTemplates.clear_after env s.tenant_id s.project_id row) _
        (clear_after-Stays row) (λ kept. same-Stays s (some kept))

  store_pdf_template-Stays :
      (data' : Row)
      → Unscoped data'
      → Stays s (PdfTemplates.create env s.tenant_id s.project_id data')
  unfolding PdfTemplates.create
  store_pdf_template-Stays data' h =
      bind-Stays s
        (Query.create env pdf_templates "pdf_template" pdf_template_defaults s.tenant_id
          s.project_id data')
        (PdfTemplates.clear_after env s.tenant_id s.project_id)
        (create-Keeps s.tenant_id s.project_id env pdf_templates "pdf_template"
          pdf_template_defaults data' h)
        clear_after-Stays

  pub create_pdf_template-Stays :
      (data' : Row) → Unscoped data' → Stays s (PdfTemplateService.create env s data')
  unfolding PdfTemplateService.create
  create_pdf_template-Stays data' (h1, h2) =
      store_pdf_template-Stays (set_default "schemas" (seq nil) data') (
        set_default-absent "tenant_id" "schemas" (seq nil) data' refl h1,
        set_default-absent "project_id" "schemas" (seq nil) data' refl h2,
      )

  write_pdf_template-Stays :
      (entity_id : String) (payload : Row)
      → Unscoped payload
      → Stays s (PdfTemplateService.write env s entity_id payload)
  unfolding PdfTemplateService.write PdfTemplates.update
  write_pdf_template-Stays entity_id [] h = get_record-Stays s pdf_templates entity_id
  write_pdf_template-Stays entity_id (entry ∷ entries) h =
      found-Stays s (PdfTemplates.update env s.tenant_id s.project_id entity_id (entry ∷ entries)) (
        bind-Stays s
          (Query.update env pdf_templates s.tenant_id s.project_id entity_id (entry ∷ entries))
          (PdfTemplates.clear_found env s.tenant_id s.project_id)
          (update-Keeps s.tenant_id s.project_id env pdf_templates entity_id (entry ∷ entries) h)
          clear_found-Stays)

  pub update_pdf_template-Stays :
      (entity_id : String) (data' : Row)
      → Unscoped data'
      → Stays s (PdfTemplateService.update env s entity_id data')
  unfolding PdfTemplateService.update
  update_pdf_template-Stays entity_id data' (h1, h2) =
      write_pdf_template-Stays entity_id (without_none data')
        (without_none-absent "tenant_id" data' h1, without_none-absent "project_id" data' h2)

  remove_pdf_template-Stays :
      (entity_id : String)
      → Stays s (PdfTemplates.soft_delete env s.tenant_id s.project_id entity_id)
  unfolding PdfTemplates.soft_delete has_key
  remove_pdf_template-Stays entity_id db =
      let values : Row =
        ("record_status", str "deleted")
        ∷ ("deleted_at", at (env.now db.reads))
        ∷ ("updated_at", at (env.now (db.reads + 1)))
        ∷ ("is_default", bool false)
        ∷ [] in
      put_rows-Kept s.tenant_id s.project_id pdf_templates _ db
        (others-update_where s.tenant_id s.project_id (in_scope s.tenant_id s.project_id entity_id)
          (λ r. merge r values)
          (λ r hit.
            let own = in_scope-owns s.tenant_id s.project_id entity_id r hit in
            (own, owns-merge s.tenant_id s.project_id r values (refl, refl) ∙ own))
          (db.rows pdf_templates))
        _ refl

  pub delete_pdf_template-Stays :
      (entity_id : String) → Stays s (PdfTemplateService.delete env s entity_id)
  unfolding PdfTemplateService.delete
  delete_pdf_template-Stays entity_id =
      deleted-Stays s entity_id (PdfTemplates.soft_delete env s.tenant_id s.project_id entity_id)
        (remove_pdf_template-Stays entity_id)
