-- ===== src/Services/ApiKeyService/Uniqueness.antt =====
-- The unique constraint of src/app/models/api_key.py, as a property of the rows of the API keys.

use python_workflow_service.Prelude.{◌≤◌, String, ◌≡◌, refl, false}
use python_workflow_service.Value.Dict.{Row, has_key, merge}
use python_workflow_service.Store.{Db, api_keys}
use python_workflow_service.Store.Query.{count_where}
use python_workflow_service.Store.Laws.{column_is-merge}
use python_workflow_service.Crud.ApiKeys.{is_of}

-- What the unique constraint promises: no two rows have the same tenant and project.
abbrev pub UniqueScopes : Db → Type 0
UniqueScopes db =
    (tenant_id project_id : String)
    → count_where (is_of tenant_id project_id) (db.rows api_keys) ≤ 1

pub is_of-merge :
    (tenant_id project_id : String) (r d : Row)
    → has_key d "tenant_id" ≡ false
    → has_key d "project_id" ≡ false
    → is_of tenant_id project_id (merge r d) ≡ is_of tenant_id project_id r
unfolding is_of
is_of-merge tenant_id project_id r d h1 h2 =
    rw
      (column_is-merge r d "tenant_id" tenant_id h1, column_is-merge r d "project_id" project_id h2)
      refl
