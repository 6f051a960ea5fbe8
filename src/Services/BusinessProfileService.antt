-- ===== src/Services/BusinessProfileService.antt =====
-- `class BusinessProfileService` of src/app/business/services/business_profile_service.py.
use python_workflow_service.Prelude.{[], ◌∷◌, if◌then◌else◌}
use python_workflow_service.Value.{is_none}
use python_workflow_service.Value.Dict.{Row}
use python_workflow_service.Store.{Env, Action}
use python_workflow_service.Crud.BusinessProfile
use python_workflow_service.Services.{Scope}

-- `{key: value for key, value in data.items() if value is not None}`.
unfoldable pub without_none : Row → Row
without_none [] = []
without_none ((key, value) ∷ data') =
    let rest = without_none data' in if is_none value then rest else (key, value) ∷ rest

module _ (env : Env) (s : Scope) where
  unfoldable pub fetch : Action Row
  fetch = BusinessProfile.get_or_create env s.tenant_id s.project_id

  unfoldable pub upsert : Row → Action Row
  upsert data' = BusinessProfile.upsert env s.tenant_id s.project_id (without_none data')
