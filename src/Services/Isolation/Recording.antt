-- ===== src/Services/Isolation/Recording.antt =====
-- The steps of the services that record an event or make an entry of a timeline leave the rows of other tenants
-- and projects alone.
use python_workflow_service.Prelude.{String, ◌≡◌, refl, Bool, false, List, [], if◌then◌else◌}
use python_workflow_service.Prelude.Text.{is_empty}
use python_workflow_service.Value.Dict.{Row}
use python_workflow_service.Timeline.{new_timeline_event}
use python_workflow_service.Store.{Env, Action, pure, raise, ◌>>=◌, ◌>>◌}
use python_workflow_service.Store.Outside.{Kept-refl}
use python_workflow_service.Events.{Change, record_and_dispatch}
use python_workflow_service.Events.Outside.{record_and_dispatch-Keeps}
use python_workflow_service.Services.{Scope, missing_record, service_event}
use python_workflow_service.Services.Isolation.{
  Stays, decided-Stays, same-Stays, raise-Stays, bind-Stays,
}

module _ (env : Env) (s : Scope) (tenant_given : is_empty s.tenant_id ≡ false)
    (project_given : is_empty s.project_id ≡ false) where
  pub event-Stays :
      (entity action : String) (subject : Row) (changes : List Change) (source : String)
      → Stays s (record_and_dispatch env (service_event entity action subject changes s source))
  event-Stays entity action subject changes source =
      record_and_dispatch-Keeps env s.tenant_id s.project_id
        (service_event entity action subject changes s source) refl refl tenant_given project_given

  pub new_timeline_event-Stays : (event : Row) → Stays s (new_timeline_event env event)
  unfolding new_timeline_event
  new_timeline_event-Stays event db = Kept-refl s.tenant_id s.project_id db _ refl

  -- The end of a step that has a record to report.
  pub reported-Stays :
      (entity action : String) (subject : Row) (changes : List Change) (source : String)
      → Stays s (
          record_and_dispatch env (service_event entity action subject changes s source)
          >> pure subject)
  reported-Stays entity action subject changes source =
      bind-Stays s (record_and_dispatch env (service_event entity action subject changes s source))
        _ (event-Stays entity action subject changes source) (λ done. same-Stays s subject)

  -- The answer of `delete`, with the event.
  pub removed-Stays :
      (entity : String) (entity_id : String) (before : Row) (m : Action Bool)
      → Stays s m
      → Stays s (
          m >>= λ deleted.
          if deleted
          then record_and_dispatch env (service_event entity "deleted" before [] s "fm")
            >> pure entity_id
          else raise missing_record)
  removed-Stays entity entity_id before m h = bind-Stays s m _ h (λ deleted.
      decided-Stays s deleted _ _
        (bind-Stays s (record_and_dispatch env (service_event entity "deleted" before [] s "fm")) _
          (event-Stays entity "deleted" before [] "fm") (λ done. same-Stays s entity_id))
        (raise-Stays s String missing_record))
