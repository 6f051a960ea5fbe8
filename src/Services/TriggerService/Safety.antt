-- ===== src/Services/TriggerService/Safety.antt =====
-- Which URLs src/app/business/services/trigger_service.py stores.
use python_workflow_service.Prelude.{String, ◌≡◌, refl, false}
use python_workflow_service.Prelude.Text.{strip}
use python_workflow_service.Value.{is_none}
use python_workflow_service.Value.Dict.{Row, get}
use python_workflow_service.Store.{Action, Db, Env, Result, err}
use python_workflow_service.Scheduler.Data.{text_of}
use python_workflow_service.Services.{Scope}
use python_workflow_service.Services.TriggerService.{guarded, refusal, in_world, create, update}
use python_workflow_service.Webhooks.{
  Net, Traffic, Check, passed, refused, validate_outbound_webhook_url,
}
use python_workflow_service.Webhooks.Guard.{IsSafe, validate_outbound_webhook_url-IsSafe}
use python_workflow_service.Webhooks.Worker.{World}

-- The URL of a request is safe once the request has succeeded; a request whose URL is refused
-- fails with the exception of the guard, and writes nothing.
abbrev pub Saves : Net → String → Traffic → Db → Check → Result Row × World → Type 0
Saves net url s db (passed cleaned) result = (cleaned ≡ strip url) × IsSafe net s.lookups cleaned
Saves net url s db (refused e) result = (result.0 ≡ err (refusal net e)) × (result.1.db ≡ db)

module _ (net : Net) where
  guarded-Saves :
      (url : String) (s s' : Traffic) (db : Db) (act : Action Row) (c : Check)
      → (validate_outbound_webhook_url net url s).0 ≡ c
      → Saves net url s db c (in_world (guarded net c act) s' db)
  unfolding guarded
  guarded-Saves url s s' db act (passed cleaned) h =
      validate_outbound_webhook_url-IsSafe net url s cleaned h
  guarded-Saves url s s' db act (refused e) h = (refl, refl)

module _ (net : Net) (env : Env) (s : Scope) where
  -- No trigger is stored with a URL that the outbound guard refuses. Creating a trigger, and
  -- updating one with a URL that is not `None`, ask the guard first: where it refuses, the call
  -- fails with the guard's exception and the database is as it was, otherwise the URL is safe.
  pub save-Saves :
      (data' : Row) (entity_id : String) (w : World)
      → is_none (get data' "webhook_url") ≡ false
      → Saves net
          (text_of data' "webhook_url")
          w.traffic
          w.db
          (validate_outbound_webhook_url net (text_of data' "webhook_url") w.traffic).0
          (create net env s data' w)
        × Saves net
            (text_of data' "webhook_url")
            w.traffic
            w.db
            (validate_outbound_webhook_url net (text_of data' "webhook_url") w.traffic).0
            (update net env s entity_id data' w)
  unfolding create update
  save-Saves data' entity_id w given = (
    guarded-Saves net (text_of data' "webhook_url") w.traffic _ w.db _ _ refl,
    rw given (guarded-Saves net (text_of data' "webhook_url") w.traffic _ w.db _ _ refl),
  )
