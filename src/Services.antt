-- ===== src/Services.antt =====
-- What the services of src/app/business/services share: scope, missing records, cleaned payloads,
-- recorded events. The payloads are dicts, so their keys differ; a request's schema guarantees that
-- a title and an invoice number are texts.
pub mod ContractService
pub mod WorkOrderService
pub mod InvoiceService
pub mod VendorPortal
pub mod ApiKeyService
pub mod Security
pub mod TriggerService
pub mod PaymentService
pub mod AssetService
pub mod AssetCategoryService
pub mod FormTemplateService
pub mod CustomFieldService
pub mod BusinessProfileService
pub mod McpService
pub mod LogService
pub mod PdfTemplateService
pub mod Isolation
use python_workflow_service.Prelude.{
  String, Bool, true, false, not, ◌&&◌, Option, none, some, List, [], ◌∷◌, str_eq, if◌then◌else◌,
  any,
}
use python_workflow_service.Prelude.Text.{strip}
use python_workflow_service.Value.{Value, null, str, enum, seq, items, is_none, truthy, py_str}
use python_workflow_service.Value.Dict.{Row, get}
use python_workflow_service.Store.{
  Table, Env, Action, Error, not_found, raise, pure, skip, or_raise, ◌>>=◌, ◌>>◌,
}
use python_workflow_service.Store.Query
use python_workflow_service.Events.{Event, Change}
use python_workflow_service.Scheduler.Data.{has_text}

-- The tenant and the project of a service.
pub record Scope : Type 0 where
  pub tenant_id : String
  pub project_id : String

abbrev pub missing_record : Error
missing_record = not_found "errors.not_found"

-- `get`, and the check of every `_ensure_…_exists`.
unfoldable pub get_record : Table → Scope → String → Action Row
unfolding Query.get_by_id
get_record t s entity_id = do
  found ← Query.get_by_id t s.tenant_id s.project_id entity_id
  or_raise found missing_record

unfoldable pub ensure_exists : Table → Scope → String → Action (Unit {0})
unfolding get_record
ensure_exists t s entity_id = get_record t s entity_id >> skip

-- The loop over `asset_ids`.
unfoldable pub ensure_each : Table → Scope → List Value → Action (Unit {0})
unfolding ensure_exists py_str
ensure_each t s [] = skip
ensure_each t s (id ∷ ids) = ensure_exists t s (py_str id) >> ensure_each t s ids

-- `if id: await self._ensure_…_exists(id)`.
unfoldable pub ensure_if_given : Table → Scope → Value → Action (Unit {0})
unfolding ensure_exists py_str
ensure_if_given t s id = if truthy id then ensure_exists t s (py_str id) else skip

abbrev pub listed_ids : Value → List Value
listed_ids (seq ids) = items ids
listed_ids _ = []

-- `_enum_value`.
unfoldable pub enum_value : Value → String → Value
unfolding py_str
enum_value value default = if is_none value then str default else str (py_str value)

-- `title.strip()`.
abbrev pub stripped : Value → Value
stripped (str s) = str (strip s)
stripped (enum s) = str (strip s)
stripped v = v

-- `value.value` for an enum member.
abbrev pub plain : Value → Value
plain (enum s) = str s
plain v = v

-- `_prepare_update_payload`, with the keys that may be set to `None` and the key that is stripped.
unfoldable pub prepare_update_payload : List String → String → Row → Row
prepare_update_payload nullable name [] = []
prepare_update_payload nullable name ((key, value) ∷ data') =
    let rest = prepare_update_payload nullable name data' in
    if is_none value && not (has_text nullable key)
    then rest
    else (key, (if str_eq key name then stripped value else plain value)) ∷ rest

-- The arguments that the services give to `record_and_dispatch`.
abbrev pub service_event : String → String → Row → List Change → Scope → String → Event
service_event entity action subject changes s source = record {
  entity = entity;
  action = action;
  subject = subject;
  changes = changes;
  actor = none;
  source = source;
  tenant_id = some s.tenant_id;
  project_id = some s.project_id;
}
