-- ===== src/Api/Reply.antt =====
-- What the routes of src/app/api/v1 share: the answers with one record, with an id, with a page. The
-- schema of a request has checked its body and its parameters, of which an optional text that is
-- missing is "".
use python_workflow_service.Prelude.{ℕ, ◌<◌, String, List, [], ◌∷◌, arith}
use python_workflow_service.Value.{str, obj}
use python_workflow_service.Value.Dict.{Row, fields_of}
use python_workflow_service.Store.{Db, Action, Result, ok, err, pure, when_ok, ◌>>=◌}
use python_workflow_service.Http.{Web, Response, success_response, list_response, dump, dump_all}

module _ (w : Web) (language : String) where
  unfoldable pub reply : String → String → ℕ → String → Row → Action Response
  unfolding dump success_response
  reply model message_key status_code custom_code record' = do
    payload ← dump w model record'
    pure (success_response w language message_key status_code custom_code (obj (fields_of payload)))

  abbrev pub retrieved : String → Row → Action Response
  retrieved model = reply model "success.retrieved" 200 "2000"

  abbrev pub created : String → Row → Action Response
  created model = reply model "success.created" 201 "2001"

  abbrev pub updated : String → Row → Action Response
  updated model = reply model "success.updated" 200 "2000"

  -- The name of the class, of which the id is the only field.
  abbrev pub deleted : String → String → Action Response
  deleted model id = reply model "success.deleted" 200 "2000" (("id", str id) ∷ [])

  unfoldable pub listed : String → ℕ → ℕ → List Row × ℕ → Action Response
  unfolding dump_all list_response
  listed model page page_size found = do
    payload ← dump_all w model found.0
    pure (list_response w language payload found.1 page page_size)

-- The answer of a route that returns has the status of a success.
abbrev pub Succeeds : Result Response → Type 0
Succeeds (ok response) = response.status_code < 300
Succeeds (err e) = Unit

abbrev pub Answers : Action Response → Type 0
Answers act = (db : Db) → Succeeds (act db).0

pub when_ok-Succeeds :
    {A : Type 0} (r : Result A × Db) (k : A → Action Response)
    → ((a : A) → Answers (k a))
    → Succeeds (when_ok r k).0
when_ok-Succeeds (ok a, db) k h = h a db
when_ok-Succeeds (err e, db) k h = tt

module _ (w : Web) (language : String) where
  pub reply-Answers :
      (model message_key : String) (status : ℕ) (custom_code : String) (record' : Row)
      → status < 300
      → Answers (reply w language model message_key status custom_code record')
  unfolding reply success_response
  reply-Answers model message_key status custom_code record' h db =
      when_ok-Succeeds (dump w model record' db) _ (λ payload db'. h)

  pub listed-Answers :
      (model : String) (page page_size : ℕ) (found : List Row × ℕ)
      → Answers (listed w language model page page_size found)
  unfolding listed list_response
  listed-Answers model page page_size found db =
      when_ok-Succeeds (dump_all w model found.0 db) _ (λ payload db'. omega arith)

  -- The answers with one record.
  pub once-Answers :
      (model message_key custom_code : String) (record' : Row)
      → Answers (reply w language model message_key 200 custom_code record')
  once-Answers model message_key custom_code record' =
      reply-Answers model message_key 200 custom_code record' (omega arith)
