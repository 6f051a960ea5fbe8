-- ===== src/Api/Mcp.antt =====
-- The JSON-RPC server of src/app/api/mcp.py, and its log, src/app/middleware/api_call_logging.py. The
-- id of a message is any JSON value; its method is a text.
pub mod Envelope
use Prim.Native.String.{◌++◌ as str_append}
use python_workflow_service.Prelude.{
  ℕ, String, Bool, true, false, Option, none, some, List, [], ◌∷◌, map, ℤ, pos, negsuc,
  if◌then◌else◌,
}
use python_workflow_service.Value.{
  Value, Fields, end, field, num, str, obj, seq, items_of, is_text, truthy, or_default, py_str,
}
use python_workflow_service.Value.Dict.{Row, get, fields_of}
use python_workflow_service.Store.{
  Db, Env, Action, Result, ok, err, Error, not_found, validation, unauthorized, duplicate_value,
  value_error, bad_request, other, Transaction, sound, aborted, broken, transaction_after, pure,
  raise, ◌>>=◌,
}
use python_workflow_service.Http.{Web, Response}
use python_workflow_service.Http.Errors.{handle_exception}
use python_workflow_service.Http.Session.{Session, Ended, async_get_db_session, rollback}
use python_workflow_service.Crud.ApiCallLogs.{Call}
use python_workflow_service.Services.{Scope}
use python_workflow_service.Services.ApiKeyService.{ApiKeyScope}
use python_workflow_service.Services.LogService
use python_workflow_service.Services.McpService.{call_tool}
use python_workflow_service.Services.McpService.Definitions.{tool_definitions}
use python_workflow_service.Services.Security.{get_mcp_api_key_scope}
use python_workflow_service.Api.Serving.{service_scope}

abbrev pub dict : Row → Value
dict r = obj (fields_of r)

-- `_jsonrpc_result`.
unfoldable pub jsonrpc_result : Value → Row → Row
jsonrpc_result msg_id result =
    ("jsonrpc", str "2.0") ∷ ("id", msg_id) ∷ ("result", dict result) ∷ []

-- `_jsonrpc_error`, for a code below 0.
unfoldable pub jsonrpc_error : Value → ℕ → String → Row
jsonrpc_error msg_id code_before message =
    ("jsonrpc", str "2.0")
    ∷ ("id", msg_id)
    ∷ ("error", dict (("code", num (negsuc code_before)) ∷ ("message", str message) ∷ []))
    ∷ []

-- A dict of a message.
abbrev pub row_of : Fields → Row
row_of end = []
row_of (field k v r) = (k, v) ∷ row_of r

abbrev pub dict_or_empty : Value → Row
dict_or_empty (obj r) = row_of r
dict_or_empty _ = []

-- The answer to a message, with the transaction after it.
pub record Answered : Type 0 where
  pub message : Row
  pub transaction : Transaction

abbrev pub only : Row → Answered
only message = record { message = message; transaction = sound }

-- `str(exc.detail)` of an `HTTPException`, or `str(exc)`.
unfoldable pub error_text : Web → Error → String
error_text w (not_found key) = "Not found"
error_text w (unauthorized key) = "Unauthorized"
error_text w (validation key) = w.phrase 422
error_text w (duplicate_value key) = w.phrase 409
error_text w (bad_request detail) = detail
error_text w e = w.text_of e

module _ (w : Web) (env : Env) where
  -- What is sent for the result of a tool, or for its exception.
  unfoldable pub tool_answer : Value → Result Value → Answered
  unfolding jsonrpc_result jsonrpc_error error_text transaction_after
  tool_answer msg_id (ok value) = only (
      jsonrpc_result msg_id (
        (
          "content",
          seq (items_of (dict (("type", str "text") ∷ ("text", str (w.dumps value)) ∷ []) ∷ [])),
        )
        ∷ []))
  tool_answer msg_id (err e) = record {
    message = jsonrpc_error msg_id 31999 (error_text w e);
    transaction = transaction_after e;
  }

  -- `_handle_tools_call`: every exception becomes an answer.
  unfoldable pub handle_tools_call : Value → Row → ApiKeyScope → Action Answered
  unfolding tool_answer
  handle_tools_call msg_id params scope db =
      let ran =
        call_tool env (service_scope scope) scope (py_str (or_default (get params "name") (str "")))
          (dict_or_empty (get params "arguments")) db in
      (ok (tool_answer msg_id ran.0), ran.1)

  -- The answer to `initialize`.
  abbrev pub server_info : Row
  server_info =
      ("protocolVersion", str "2024-11-05")
      ∷ ("capabilities", dict (("tools", dict []) ∷ []))
      ∷ ("serverInfo", dict (("name", str "work-order-service") ∷ ("version", str "1.0.0") ∷ []))
      ∷ []

  -- `mcp_handler`, of a body that is a dict, or is no JSON.
  unfoldable pub mcp_handler : Option Row → ApiKeyScope → Action Answered
  unfolding handle_tools_call jsonrpc_result jsonrpc_error
  mcp_handler none scope = raise (bad_request "Body must be JSON")
  mcp_handler (some message) scope =
      let method = get message "method" in
      let msg_id = get message "id" in
      if is_text method "initialize"
      then pure (only (jsonrpc_result msg_id server_info))
      else (if is_text method "notifications/initialized"
          then pure (only (("jsonrpc", str "2.0") ∷ ("result", dict []) ∷ []))
          else (if is_text method "tools/list"
              then pure (
                  only (
                    jsonrpc_result msg_id
                      (("tools", seq (items_of (map dict tool_definitions))) ∷ [])))
              else (if is_text method "tools/call"
                  then handle_tools_call msg_id (dict_or_empty (get message "params")) scope
                  else pure (
                      only (
                        jsonrpc_error msg_id 32600
                          (str_append "Method not found: " (py_str method)))))))

  unfoldable pub mcp_act : Option Row → String → String → Action Answered
  unfolding mcp_handler
  mcp_act body authorization x_api_key = do
    scope ← get_mcp_api_key_scope env authorization x_api_key
    mcp_handler body scope

  -- The commit at the end of the session, and the answer.
  unfoldable pub sent_with : String → Db → Row → Db → Transaction → Response × Db
  unfolding rollback
  sent_with language before message after sound =
      (record { status_code = 200; content = message }, after)
  sent_with language before message after aborted =
      (record { status_code = 200; content = message }, rollback before after)
  sent_with language before message after broken =
      (handle_exception w language (other "PendingRollbackError"), rollback before after)

  -- The end of the session.
  unfoldable pub mcp_answer : String → Db → Result Answered × Db → Response × Db
  unfolding rollback sent_with
  mcp_answer language before (ok a, after) = sent_with language before a.message after a.transaction
  mcp_answer language before (err e, after) = (handle_exception w language e, rollback before after)

  unfoldable pub mcp_post : String → Option Row → String → String → Db → Response × Db
  unfolding mcp_act mcp_answer
  mcp_post language body authorization x_api_key db =
      mcp_answer language db (mcp_act body authorization x_api_key db)

  -- What `_persist_log` writes: the bodies as dicts, the duration as it was measured.
  unfoldable pub log_call : Scope → ApiKeyScope → ℕ → ℕ → Row → Row → Action Row
  log_call s scope status_code duration_ms request_body response_body =
      LogService.record_api_call s env (record {
        method = "POST";
        path = "/api/mcp";
        status_code = status_code;
        duration_ms = duration_ms;
        source = or_default scope.api_key_name (str "mcp");
        request_body = dict request_body;
        response_body = dict response_body;
      })

  -- `_persist_log`: a session of its own; whatever it raises is only logged.
  unfoldable pub persist_log : String → String → ℕ → ℕ → Row → Row → Db → Db
  unfolding log_call async_get_db_session rollback
  persist_log authorization x_api_key status_code duration_ms request_body response_body db =
      let ran =
        (get_mcp_api_key_scope env authorization x_api_key >>= λ scope.
        log_call (service_scope scope) scope status_code duration_ms request_body response_body)
          db in
      elim ran.0 [ ok row ↦ ran.1 | err e ↦ rollback db ran.1 ]
