-- ===== src/Crud/PdfTemplates.antt =====
-- src/app/crud/crud_pdf_templates.py.
use python_workflow_service.Prelude.{
  String, Bool, false, ◌&&◌, Option, none, some, List, [], ◌∷◌, ◌==◌, if◌then◌else◌,
}
use python_workflow_service.Value.{bool, str, at, truthy, py_str}
use python_workflow_service.Value.Dict.{Row, get, merge}
use python_workflow_service.Models.{pdf_template_defaults}
use python_workflow_service.Store.{Env, Action, pdf_templates, pure, gets, fresh, ◌>>=◌, ◌>>◌}
use python_workflow_service.Store.Order.{older}
use python_workflow_service.Store.Query
use python_workflow_service.Store.Query.{
  column_is, column_is_not, is_active, in_scope, update_where, count_where, execute_update,
  select_all, sort,
}

-- The WHERE clause of `list`.
unfoldable pub listed : String → String → Row → Bool
unfolding get
listed tenant_id project_id r =
    column_is r "tenant_id" tenant_id && column_is r "project_id" project_id && is_active r

unfoldable pub list : String → String → Action (List Row)
unfolding listed select_all sort older
list tenant_id project_id = do
  rows ← select_all pdf_templates (listed tenant_id project_id)
  pure (sort older rows)

unfoldable pub get_by_id : String → String → String → Action (Option Row)
unfolding Query.get_by_id
get_by_id = Query.get_by_id pdf_templates

-- The other default templates of a type: the WHERE clause of `_clear_other_defaults`.
unfoldable pub is_other_default : String → String → String → String → Row → Bool
unfolding get
is_other_default tenant_id project_id doc_type keep_id r =
    column_is r "tenant_id" tenant_id
    && column_is r "project_id" project_id
    && column_is r "doc_type" doc_type
    && is_active r
    && truthy (get r "is_default")
    && column_is_not r "id" keep_id

module _ (env : Env) where
  unfoldable pub clear_other_defaults : String → String → String → String → Action (Unit {0})
  unfolding update_where merge is_other_default
  clear_other_defaults tenant_id project_id doc_type keep_id = do
    now ← fresh env.now
    execute_update pdf_templates (is_other_default tenant_id project_id doc_type keep_id)
        (λ r. merge r (("is_default", bool false) ∷ ("updated_at", at now) ∷ []))

  -- `if row.is_default: await self._clear_other_defaults(…)`.
  unfoldable pub clear_after : String → String → Row → Action Row
  unfolding clear_other_defaults get py_str
  clear_after tenant_id project_id row =
      if truthy (get row "is_default")
      then clear_other_defaults tenant_id project_id (py_str (get row "doc_type"))
          (py_str (get row "id"))
        >> pure row
      else pure row

  unfoldable pub create : String → String → Row → Action Row
  unfolding Query.create pdf_template_defaults clear_after
  create tenant_id project_id data' = do
    row ←
        Query.create env pdf_templates "pdf_template" pdf_template_defaults tenant_id project_id
          data'
    clear_after tenant_id project_id row

  -- `if row and row.is_default: …`.
  unfoldable pub clear_found : String → String → Option Row → Action (Option Row)
  unfolding clear_after
  clear_found tenant_id project_id none = pure none
  clear_found tenant_id project_id (some row) = do
    kept ← clear_after tenant_id project_id row
    pure (some kept)

  unfoldable pub update : String → String → String → Row → Action (Option Row)
  unfolding Query.update clear_found
  update tenant_id project_id entity_id data' = do
    updated ← Query.update env pdf_templates tenant_id project_id entity_id data'
    clear_found tenant_id project_id updated

  unfoldable pub soft_delete : String → String → String → Action Bool
  unfolding in_scope update_where count_where merge
  soft_delete tenant_id project_id entity_id = do
    deleted_at ← fresh env.now
    updated_at ← fresh env.now
    count ←
        gets (λ db. count_where (in_scope tenant_id project_id entity_id) (db.rows pdf_templates))
    execute_update pdf_templates (in_scope tenant_id project_id entity_id) (λ r. merge r (
        ("record_status", str "deleted")
        ∷ ("deleted_at", at deleted_at)
        ∷ ("updated_at", at updated_at)
        ∷ ("is_default", bool false)
        ∷ []))
    pure (count == 1)
