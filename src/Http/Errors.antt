-- ===== src/Http/Errors.antt =====
-- src/app/core/exception_handlers.py, for the exceptions of the services, with the defaults of
-- src/app/core/exceptions/http_exceptions.py. An exception without a handler is answered by Starlette.
use python_workflow_service.Prelude.{
  ℕ, ◌≤◌, arith, String, ◌==◌, none, some, List, [], ◌∷◌, map, str_eq, ◌&&◌, not, if◌then◌else◌,
}
use python_workflow_service.Prelude.Text.{is_empty, decimal}
use Prim.Native.String.{◌++◌ as str_append}
use python_workflow_service.Value.{str, null}
use python_workflow_service.Value.Dict.{Row}
use python_workflow_service.Store.{
  Error, Invalid, not_found, validation, unauthorized, duplicate_value, integrity, statement,
  value_error, other, model_error, bad_request,
}
use python_workflow_service.Scheduler.Data.{has_text}
use python_workflow_service.Http.{Web, Response, error_response}

-- `".".join(parts)`.
unfoldable pub joined : List String → String
joined [] = ""
joined (part ∷ []) = part
joined (part ∷ next ∷ parts) = str_append part (str_append "." (joined (next ∷ parts)))

-- `loc[-1]`, where "unknown" stands for a location that is missing.
unfoldable pub last_part : List String → String
last_part [] = "unknown"
last_part (part ∷ []) = part
last_part (part ∷ next ∷ parts) = last_part (next ∷ parts)

abbrev pub header_fields : List String
header_fields =
    "authorization" ∷ "lan" ∷ "x-tenant-id" ∷ "x-project-id" ∷ "x-subject-user-id" ∷ "city"
    ∷ "state" ∷ "country" ∷ "ipaddress" ∷ "latitude" ∷ "longitude" ∷ "platform" ∷ "version" ∷ []

abbrev pub sections : List String
sections = "body" ∷ "query" ∷ "path" ∷ "header" ∷ "cookie" ∷ []

-- The location of an error, with "headers" before the name of a header.
unfoldable pub located : List String → List String
located [] = []
located (part ∷ parts) =
    if not (has_text sections part) && has_text header_fields part
    then "headers" ∷ part ∷ parts
    else part ∷ parts

unfoldable pub detailed : Invalid → Row
unfolding located joined
detailed e =
    ("field", str (joined (located e.loc))) ∷ ("type", str e.error_type) ∷ ("msg", str e.msg) ∷ []

-- The key of the message and its parameters, from the first error.
unfoldable pub first_message : List Invalid → String × Row
unfolding last_part
first_message [] = ("errors.validation", ("message", str "Unknown validation error") ∷ [])
first_message (e ∷ es) =
    if str_eq e.error_type "missing"
    then ("errors.missing_required_param", ("param_name", str (last_part e.loc)) ∷ [])
    else ("errors.validation", ("message", str e.msg) ∷ [])

-- Starlette's answer to an exception that no handler is registered for.
unfoldable pub server_error : Response
server_error = record { status_code = 500; content = [] }

-- `exc.message_key or key`.
unfoldable pub key_or : String → String → String
key_or message_key key = if is_empty message_key then key else message_key

-- The `status_map` of `_handle_http_exception`: the key of the message and the code.
unfoldable pub status_map : ℕ → String × String
status_map status =
    if status == 404
    then ("errors.not_found", "4003")
    else (if status == 403
        then ("errors.forbidden", "4002")
        else (if status == 401
            then ("errors.unauthorized", "4001")
            else (if status == 405
                then ("errors.method_not_allowed", "4000")
                else (if status == 429
                    then ("errors.rate_limit_exceeded", "4008")
                    else (if status == 500
                        then ("errors.server_error", "6000")
                        else (str_append "errors.status_" (decimal status), "4000"))))))

module _ (w : Web) (language : String) where
  -- `_handle_validation_exception`.
  unfoldable pub handle_validation_exception : List Invalid → Response
  unfolding detailed first_message error_response
  handle_validation_exception errors =
      error_response w language (first_message errors).0 422 "4004" (some (map detailed errors))
        (first_message errors).1

  -- `_handle_http_exception`, with the parameters for some of the statuses.
  unfoldable pub handle_http_exception : ℕ → Row → Response
  unfolding status_map error_response
  handle_http_exception status params =
      error_response w language (status_map status).0 status (status_map status).1 none params

  -- The handler of `ValueError`.
  unfoldable pub handle_value_error : String → Response
  unfolding error_response
  handle_value_error text =
      let msg = if is_empty text then "Invalid value" else text in
      error_response w language "errors.bad_request" 400 "4000"
        (some ((("field", null) ∷ ("type", str "value_error") ∷ ("msg", str msg) ∷ []) ∷ []))
        (("message", str msg) ∷ [])

  -- The handler that FastAPI finds for an exception.
  unfoldable pub handle_exception : Error → Response
  unfolding handle_validation_exception handle_value_error server_error error_response key_or
      handle_http_exception
  handle_exception (not_found key) =
      error_response w language (key_or key "errors.not_found") 404 "4003" none
        (w.params (not_found key))
  handle_exception (duplicate_value key) =
      error_response w language (key_or key "errors.duplicate_value") 409 "4005" none
        (w.params (duplicate_value key))
  handle_exception (validation key) =
      error_response w language key 422 "4004" none (w.params (validation key))
  handle_exception (unauthorized key) =
      error_response w language key 401 "4001" none (w.params (unauthorized key))
  handle_exception (value_error text) = handle_value_error text
  handle_exception (model_error errors) = handle_validation_exception errors
  handle_exception (bad_request detail) = handle_http_exception 400 (w.params (bad_request detail))
  handle_exception (integrity constraint) = server_error
  handle_exception (statement text) = server_error
  handle_exception (other text) = server_error

  -- Every handler answers with an error status.
  pub handle_exception-status : (e : Error) → 400 ≤ (handle_exception e).status_code
  unfolding handle_exception error_response
  handle_exception-status (not_found key) = omega arith
  handle_exception-status (duplicate_value key) = omega arith
  handle_exception-status (validation key) = omega arith
  handle_exception-status (unauthorized key) = omega arith
  handle_exception-status (value_error text) = omega arith
  handle_exception-status (model_error errors) = omega arith
  handle_exception-status (integrity constraint) = omega arith
  handle_exception-status (statement text) = omega arith
  handle_exception-status (other text) = omega arith
  handle_exception-status (bad_request detail) = omega arith
