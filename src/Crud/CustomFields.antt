-- ===== src/Crud/CustomFields.antt =====
-- src/app/crud/crud_custom_fields.py. An argument of `list` that is not given is "".
use python_workflow_service.Prelude.{
  ℕ, String, Bool, true, false, ◌&&◌, ◌||◌, Option, List, if◌then◌else◌, z_ltb,
}
use python_workflow_service.Prelude.Text.{is_empty}
use python_workflow_service.Value.{Value, value_eq, num}
use python_workflow_service.Value.Dict.{Row, get}
use python_workflow_service.Store.{Env, Action, custom_fields}
use python_workflow_service.Store.Query
use python_workflow_service.Store.Query.{column_is, is_active, in_scope, list_page}
use python_workflow_service.Store.Order.{by_text}
use python_workflow_service.Store.Search.{column_matches}
use python_workflow_service.Models.{custom_field_defaults}

-- The WHERE clause of `list`.
unfoldable pub listed : String → String → String → String → String → Row → Bool
unfolding get column_matches
listed tenant_id project_id search_term scope category_id r =
    column_is r "tenant_id" tenant_id
    && column_is r "project_id" project_id
    && is_active r
    && (if is_empty scope then true else column_is r "scope" scope)
    && (if is_empty category_id then true else column_is r "category_id" category_id)
    && (if is_empty search_term
        then true
        else column_matches search_term r "field_name" || column_matches search_term r "field_key")

-- `<` of two integers.
abbrev int_ltb : Value → Value → Bool
int_ltb (num a) (num b) = z_ltb a b
int_ltb _ _ = false

-- `order_by(CustomField.sort_order, CustomField.field_name)`; the first column holds integers.
unfoldable pub by_sort_order : Env → Row → Row → Bool
unfolding get by_text
by_sort_order env a b =
    int_ltb (get a "sort_order") (get b "sort_order")
    || (value_eq (get a "sort_order") (get b "sort_order") && by_text env "field_name" a b)

unfoldable pub list :
    Env → String → String → ℕ → ℕ → String → String → String → Action (List Row × ℕ)
unfolding listed list_page by_sort_order
list env tenant_id project_id page page_size search_term scope category_id =
    list_page custom_fields (listed tenant_id project_id search_term scope category_id)
      (by_sort_order env) page page_size

unfoldable pub get_by_id : String → String → String → Action (Option Row)
unfolding Query.get_by_id
get_by_id = Query.get_by_id custom_fields

module _ (env : Env) where
  unfoldable pub create : String → String → Row → Action Row
  unfolding Query.create custom_field_defaults
  create = Query.create env custom_fields "custom_field" custom_field_defaults

  unfoldable pub update : String → String → String → Row → Action (Option Row)
  unfolding Query.update
  update = Query.update env custom_fields

  unfoldable pub soft_delete : String → String → String → Action Bool
  unfolding Query.soft_delete
  soft_delete = Query.soft_delete env custom_fields
