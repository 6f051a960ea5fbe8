-- ===== src/Api/Triggers.antt =====
-- src/app/api/v1/triggers.py. Three routes look at the URL of the endpoint, or post to it, so they act
-- on the database and the traffic.
use python_workflow_service.Prelude.{
  ℕ, String, Option, none, some, [], ◌∷◌, map, if◌then◌else◌, arith,
}
use python_workflow_service.Value.{seq, obj, items_of, is_none, py_str}
use python_workflow_service.Value.Dict.{Row, fields_of}
use python_workflow_service.Store.{Env, Action, Result, ok, err, triggers, pure, ◌>>=◌}
use python_workflow_service.Http.{Web, Response, dump_all, success_response}
use python_workflow_service.Webhooks.{Net}
use python_workflow_service.Webhooks.Worker.{World}
use python_workflow_service.Services.{Scope, get_record}
use python_workflow_service.Services.ApiKeyService.{ApiKeyScope}
use python_workflow_service.Services.TriggerService
use python_workflow_service.Services.TriggerService.{in_world}
use python_workflow_service.Api.Reply.{
  retrieved, created, updated, deleted, Succeeds, Answers, when_ok-Succeeds, once-Answers,
  reply-Answers,
}

pub data Request : Type 0 where
  list : Request
  retrieve : String → Request
  create : Row → Request
  update : String → Row → Request
  delete : String → Request
  test : String → Request

-- The answer to what a step in the world has returned.
unfoldable pub answered : (Row → Action Response) → Result Row × World → Result Response × World
answered respond (ok row, world) = in_world (respond row) world.traffic world.db
answered respond (err e, world) = (err e, world)

-- `scope.api_key_name`.
abbrev pub key_name : ApiKeyScope → Option String
key_name scope = if is_none scope.api_key_name then none else some (py_str scope.api_key_name)

module _ (w : Web) (net : Net) (env : Env) (language : String) (s : Scope) where
  unfoldable pub list_triggers : Action Response
  unfolding dump_all success_response
  list_triggers = do
    found ← TriggerService.list env s
    items ← dump_all w "TriggerResponse" found
    let payload : Row = ("items", seq (items_of (map (λ item. obj (fields_of item)) items))) ∷ []
    pure
        (success_response w language "success.lists_retrieved" 200 "2000" (obj (fields_of payload)))

  unfoldable pub get_trigger : String → Action Response
  get_trigger entity_id = do
    record' ← get_record triggers s entity_id
    retrieved w language "TriggerResponse" record'

  unfoldable pub create_trigger : Row → World → Result Response × World
  unfolding answered
  create_trigger body world =
      answered (created w language "TriggerResponse") (TriggerService.create net env s body world)

  unfoldable pub update_trigger : String → Row → World → Result Response × World
  unfolding answered
  update_trigger entity_id body world =
      answered (updated w language "TriggerResponse")
        (TriggerService.update net env s entity_id body world)

  unfoldable pub delete_trigger : String → Action Response
  delete_trigger entity_id = do
    deleted_id ← TriggerService.delete net env s entity_id
    deleted w language "DeleteIdResponse" deleted_id

  -- The duration of the POST is an argument.
  unfoldable pub test_trigger : ℕ → String → ApiKeyScope → World → Result Response × World
  unfolding answered
  test_trigger duration_ms entity_id scope world =
      answered (updated w language "TriggerTestResult")
        (TriggerService.test net env duration_ms s entity_id (key_name scope) world)

  unfoldable pub handle : ℕ → ApiKeyScope → Request → World → Result Response × World
  handle duration_ms scope list world = in_world list_triggers world.traffic world.db
  handle duration_ms scope (retrieve entity_id) world =
      in_world (get_trigger entity_id) world.traffic world.db
  handle duration_ms scope (create body) world = create_trigger body world
  handle duration_ms scope (update entity_id body) world = update_trigger entity_id body world
  handle duration_ms scope (delete entity_id) world =
      in_world (delete_trigger entity_id) world.traffic world.db
  handle duration_ms scope (test entity_id) world = test_trigger duration_ms entity_id scope world

  answered-Succeeds :
      (respond : Row → Action Response) (ran : Result Row × World)
      → ((row : Row) → Answers (respond row))
      → Succeeds (answered respond ran).0
  unfolding answered
  answered-Succeeds respond (ok row, world) h = h row world.db
  answered-Succeeds respond (err e, world) h = tt

  pub handle-Succeeds :
      (duration_ms : ℕ) (scope : ApiKeyScope) (r : Request) (world : World)
      → Succeeds (handle duration_ms scope r world).0
  unfolding handle list_triggers get_trigger create_trigger update_trigger delete_trigger
      test_trigger
  handle-Succeeds duration_ms scope list world =
      when_ok-Succeeds (TriggerService.list env s world.db) _ (λ found db.
        when_ok-Succeeds (dump_all w "TriggerResponse" found db) _ (λ items db'. omega arith))
  handle-Succeeds duration_ms scope (retrieve entity_id) world =
      when_ok-Succeeds (get_record triggers s entity_id world.db) _
        (λ row. once-Answers w language _ _ _ row)
  handle-Succeeds duration_ms scope (create body) world =
      answered-Succeeds _ _ (λ row. reply-Answers w language _ _ 201 _ row (omega arith))
  handle-Succeeds duration_ms scope (update entity_id body) world =
      answered-Succeeds _ _ (λ row. once-Answers w language _ _ _ row)
  handle-Succeeds duration_ms scope (delete entity_id) world =
      when_ok-Succeeds (TriggerService.delete net env s entity_id world.db) _
        (λ id. once-Answers w language _ _ _ _)
  handle-Succeeds duration_ms scope (test entity_id) world =
      answered-Succeeds _ _ (λ row. once-Answers w language _ _ _ row)
