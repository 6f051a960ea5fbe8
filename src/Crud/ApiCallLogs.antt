-- ===== src/Crud/ApiCallLogs.antt =====
-- src/app/crud/crud_api_call_logs.py. A limit that is not given is `none`.
use python_workflow_service.Prelude.{
  ℕ, ◌-◌, ◌*◌, String, Bool, ◌&&◌, Option, none, some, List, [], ◌∷◌, length, filter, take, drop,
  min, pos, ◌==◌, if◌then◌else◌,
}
use python_workflow_service.Value.{Value, num, str, obj, end, or_default}
use python_workflow_service.Value.Dict.{Row, get}
use python_workflow_service.Models.{api_call_log_defaults}
use python_workflow_service.Store.{Env, Action, api_call_logs, pure, gets, ◌>>=◌}
use python_workflow_service.Store.Order.{logged_later}
use python_workflow_service.Store.Query
use python_workflow_service.Store.Query.{column_is, sort}

-- The arguments of `create`.
pub record Call : Type 0 where
  pub method : String
  pub path : String
  pub status_code : ℕ
  pub duration_ms : ℕ
  pub source : Value
  pub request_body : Value
  pub response_body : Value

unfoldable pub create : Env → String → String → Call → Action Row
unfolding Query.create api_call_log_defaults
create env tenant_id project_id c =
    Query.create env api_call_logs "api_call_log" api_call_log_defaults tenant_id project_id (
      ("method", str c.method)
      ∷ ("path", str c.path)
      ∷ ("status_code", num (pos c.status_code))
      ∷ ("duration_ms", num (pos c.duration_ms))
      ∷ ("source", c.source)
      ∷ ("request_body", or_default c.request_body (obj end))
      ∷ ("response_body", or_default c.response_body (obj end))
      ∷ [])

-- `min(limit or page_size, 500)`.
unfoldable pub effective_limit : Option ℕ → ℕ → ℕ
effective_limit none page_size = min page_size 500
effective_limit (some limit) page_size = min (if limit == 0 then page_size else limit) 500

-- `(page - 1) * page_size if limit is None else 0`.
unfoldable pub offset_of : Option ℕ → ℕ → ℕ → ℕ
offset_of none page page_size = (page - 1) * page_size
offset_of (some limit) page page_size = 0

-- The WHERE clause of `list`.
unfoldable pub listed : String → String → Row → Bool
unfolding get
listed tenant_id project_id r =
    column_is r "tenant_id" tenant_id && column_is r "project_id" project_id

unfoldable pub list : String → String → ℕ → ℕ → Option ℕ → Action (List Row × ℕ)
unfolding listed sort logged_later effective_limit offset_of
list tenant_id project_id page page_size limit = do
  rows ← gets (λ db. filter (listed tenant_id project_id) (db.rows api_call_logs))
  pure (
    take (effective_limit limit page_size)
        (drop (offset_of limit page page_size) (sort logged_later rows)),
    length rows,
  )
