-- ===== src/Api/Mcp/Envelope.antt =====
-- What a client of src/app/api/mcp.py is told, and what its answer says of the database.
use python_workflow_service.Prelude.{◌≤◌, ◌≡◌, not}
use python_workflow_service.Value.{Value, str}
use python_workflow_service.Value.Dict.{Row, get, has_key}
use python_workflow_service.Store.{Db, Env, Table, Result, ok, err}
use python_workflow_service.Http.{Web, Response}
use python_workflow_service.Api.Mcp.{Answered, Transaction, sound, aborted, broken}

-- The answer is JSON-RPC 2.0, has the id of the message, and either a result or an error.
abbrev pub Echoes : Row → Row → Type 0
Echoes message content =
    (get content "jsonrpc" ≡ str "2.0")
    × (get content "id" ≡ get message "id")
    × (has_key content "error" ≡ not (has_key content "result"))

abbrev EchoesIfOk : Row → Result Answered → Type 0
EchoesIfOk message (ok a) = Echoes message a.message
EchoesIfOk message (err e) = Unit

module _ (w : Web) (env : Env) (message : Row) where
  -- No row of any table has changed.
  abbrev pub Unchanged : Db → Db → Type 0
  Unchanged before now = (t : Table) → now.rows t ≡ before.rows t

  abbrev pub Refused : Db → Response × Db → Type 0
  Refused before sent = (400 ≤ sent.0.status_code) × Unchanged before sent.1

  -- What is sent and committed, by the transaction in which the message was handled.
  abbrev ToldAfter : Db → Db → Transaction → Response × Db → Type 0
  ToldAfter before after sound sent =
      (sent.0.status_code ≡ 200) × Echoes message sent.0.content × (sent.1 ≡ after)
  ToldAfter before after aborted sent =
      (sent.0.status_code ≡ 200) × Echoes message sent.0.content × Unchanged before sent.1
  ToldAfter before after broken sent = Refused before sent

  abbrev pub Told : Db → Result Answered × Db → Response × Db → Type 0
  Told before (ok a, after) sent = ToldAfter before after a.transaction sent
  Told before (err e, after) sent = Refused before sent
