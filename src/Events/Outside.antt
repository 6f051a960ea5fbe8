-- ===== src/Events/Outside.antt =====
-- `record_and_dispatch` writes rows of the tenant and the project of its event only.
use python_workflow_service.Prelude.{
  String, ◌≡◌, refl, false, List, [], ◌∷◌, some, Bool-cases, inl, inr, drop, filter, ap, ◌∙◌, ◌||◌,
  if◌then◌else◌,
}
use python_workflow_service.Prelude.Text.{is_empty}
use python_workflow_service.Value.{Value}
use python_workflow_service.Value.Dict.{Row, has_key, get}
use python_workflow_service.Models.{audit_event_defaults, webhook_delivery_defaults}
use python_workflow_service.Store.{Env, skip, triggers, audit_events, webhook_deliveries}
use python_workflow_service.Store.Outside.{Keeps, Kept-refl, Kept-trans, insert_row-Keeps}
use python_workflow_service.Crud.AuditEvents
use python_workflow_service.Crud.Triggers
use python_workflow_service.Crud.WebhookDeliveries
use python_workflow_service.Events.{
  Event, audit_data, delivery_data, event_payload, event_for, enqueue, dispatch, record_in_scope,
  record_and_dispatch, scope_text,
}

module _ (env : Env) (tenant_id project_id : String) where
  audit-Keeps :
      (e : Event)
      → Keeps tenant_id project_id (AuditEvents.create env (audit_data e tenant_id project_id))
  unfolding AuditEvents.create audit_data has_key
  audit-Keeps e =
      insert_row-Keeps tenant_id project_id env audit_events "audit" audit_event_defaults
        (drop 2 (audit_data e tenant_id project_id)) (refl, refl)

  delivery-Keeps :
      (e : Event) (event : String) (payload : Value) (trigger : Row)
      → Keeps tenant_id project_id (
          WebhookDeliveries.create env (delivery_data e tenant_id project_id event payload trigger))
  unfolding WebhookDeliveries.create delivery_data has_key
  delivery-Keeps e event payload trigger =
      insert_row-Keeps tenant_id project_id env webhook_deliveries "webhook_delivery"
        webhook_delivery_defaults
        (drop 2 (delivery_data e tenant_id project_id event payload trigger)) (refl, refl)

  enqueue-Keeps :
      (e : Event) (event : String) (payload : Value) (matching : List Row)
      → Keeps tenant_id project_id (enqueue env e tenant_id project_id event payload matching)
  unfolding enqueue
  enqueue-Keeps e event payload [] db = Kept-refl tenant_id project_id db db refl
  enqueue-Keeps e event payload (trigger ∷ rest) db =
      let data' = delivery_data e tenant_id project_id event payload trigger in
      Kept-trans tenant_id project_id db (WebhookDeliveries.create env data' db).1 _
        (delivery-Keeps e event payload trigger db) (enqueue-Keeps e event payload rest _)

  dispatch-Keeps :
      (e : Event) (event : String) (matching : List Row)
      → Keeps tenant_id project_id (dispatch env e tenant_id project_id event matching)
  unfolding dispatch event_payload
  dispatch-Keeps e event [] db = Kept-refl tenant_id project_id db db refl
  dispatch-Keeps e event (trigger ∷ rest) db =
      Kept-trans tenant_id project_id db (event_payload env e db).1 _
        (Kept-refl tenant_id project_id db _ refl)
        (enqueue-Keeps e event _ (trigger ∷ rest) (event_payload env e db).1)

  record_in_scope-Keeps :
      (e : Event) → Keeps tenant_id project_id (record_in_scope env e tenant_id project_id)
  unfolding record_in_scope Triggers.list_matching_triggers
  record_in_scope-Keeps e db =
      let event = event_for e.action e.changes in
      let audited = (AuditEvents.create env (audit_data e tenant_id project_id) db).1 in
      Kept-trans tenant_id project_id db audited _ (audit-Keeps e db) (
        dispatch-Keeps e event
          (filter (Triggers.matches tenant_id project_id e.entity event) (audited.rows triggers))
          audited)

  given_scope : (s : String) (v : Value) → is_empty s ≡ false → scope_text (some s) v ≡ s
  unfolding scope_text
  given_scope s v h = rw h refl

  within-Keeps :
      (e : Event) (org_id proj_id : String)
      → org_id ≡ tenant_id
      → proj_id ≡ project_id
      → Keeps tenant_id project_id (
          if is_empty org_id || is_empty proj_id
          then skip
          else record_in_scope env e org_id proj_id)
  within-Keeps e org_id proj_id h1 h2 db =
      rw (h1, h2)
        (elim (Bool-cases (is_empty tenant_id || is_empty project_id)) [
          | inl none_given ↦ rw none_given (Kept-refl tenant_id project_id db db refl)
          | inr given ↦ rw given (record_in_scope-Keeps e db)
        ])

  pub record_and_dispatch-Keeps :
      (e : Event)
      → e.tenant_id ≡ some tenant_id
      → e.project_id ≡ some project_id
      → is_empty tenant_id ≡ false
      → is_empty project_id ≡ false
      → Keeps tenant_id project_id (record_and_dispatch env e)
  unfolding record_and_dispatch
  record_and_dispatch-Keeps e h1 h2 h3 h4 =
      within-Keeps e _ _
        (ap (λ o. scope_text o (get e.subject "tenant_id")) h1
          ∙ given_scope tenant_id (get e.subject "tenant_id") h3)
        (ap (λ o. scope_text o (get e.subject "project_id")) h2
          ∙ given_scope project_id (get e.subject "project_id") h4)
