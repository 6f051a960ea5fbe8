-- ===== src/Http.antt =====
-- The answers of the service: src/app/core/i18n/translations.py, src/app/core/utils/response_factory.py
-- with the envelopes of src/app/core/schemas/responses/base.py. The encoding of an answer as JSON is
-- left out, and so are the headers of an answer.
pub mod Errors
pub mod Session
pub mod Pages
use python_workflow_service.Prelude.{
  ℕ, ◌+◌, ◌-◌, ◌*◌, ◌/◌, ◌<◌, String, Bool, true, false, Option, none, some, List, [], ◌∷◌, length,
  map, pos, ltb, ◌==◌, get_or_else, if◌then◌else◌,
}
use python_workflow_service.Prelude.Text.{is_empty, split_dots}
use python_workflow_service.Value.{
  Value, null, bool, num, str, enum, on, at, seq, obj, end, items_of, has_field, find_field,
  is_none,
}
use python_workflow_service.Value.Dict.{Row, get, has_key, fields_of}
use python_workflow_service.Store.{Action, Error, Invalid, model_error, pure, raise, ◌>>=◌}

-- What pydantic says of a record.
pub data Validated : Type 0 where
  valid : Row → Validated
  invalid : List Invalid → Validated

-- The locale files by language; `str.format`, which may miss a parameter; the parameters of an
-- exception, of which the model keeps the key, and its `str`; `HTTPStatus(…).phrase`; `json.dumps`
-- with `default=str`; and `model_validate(…).model_dump(mode="json")` of
-- pydantic, for the name of a class of src/app/schemas.
pub record Web : Type 0 where
  pub translations : Row
  pub format : String → Row → Option String
  pub params : Error → Row
  pub text_of : Error → String
  pub phrase : ℕ → String
  pub dumps : Value → String
  pub validate : String → Row → Validated

pub record Response : Type 0 where
  pub status_code : ℕ
  pub content : Row

-- The loop of `get` over the parts of a key.
unfoldable pub descend : Value → List String → Option Value
descend value [] = some value
descend (obj fields) (part ∷ parts) =
    let rest = descend (find_field part fields) parts in
    if has_field part fields then rest else none
descend value (part ∷ parts) = none

module _ (w : Web) where
  -- A text is formatted; the key stands for anything else, and for what is missing.
  unfoldable pub formatted : String → Row → Option Value → String
  formatted key params none = key
  formatted key params (some (str s)) = get_or_else (w.format s params) s
  formatted key params (some _) = key

  -- `Translator.get`, with the default language "en"; a language that is not given is "".
  unfoldable pub translate : String → String → Row → String
  unfolding get has_key descend split_dots formatted
  translate key language params =
      let wanted = if is_empty language then "en" else language in
      let locale = if has_key w.translations wanted then wanted else "en" in
      let found = if has_key w.translations locale then get w.translations locale else obj end in
      formatted key params (descend found (split_dots key))

  -- The header `lan` is the language.
  unfoldable pub success_response : String → String → ℕ → String → Value → Response
  success_response language message_key status_code custom_code data' = record {
    status_code = status_code;
    content =
        ("status", str "success")
        ∷ ("message", str (translate message_key language []))
        ∷ ("status_code", num (pos status_code))
        ∷ ("code", str custom_code)
        ∷ (if is_none data' then [] else ("data", data') ∷ []);
  }

  -- `errors` that are not given are left out.
  unfoldable pub error_response : String → String → ℕ → String → Option (List Row) → Row → Response
  error_response language message_key status_code custom_code errors params = record {
    status_code = status_code;
    content =
        ("status", str "error")
        ∷ ("message", str (translate message_key language params))
        ∷ ("status_code", num (pos status_code))
        ∷ ("code", str custom_code)
        ∷ elim errors [
          | none ↦ []
          | some es ↦ ("errors", seq (items_of (map (λ e. obj (fields_of e)) es))) ∷ []
        ];
  }

-- `(total + page_size - 1) // page_size if page_size > 0 else 0`.
unfoldable pub total_pages : ℕ → ℕ → ℕ
total_pages total page_size = if ltb 0 page_size then (total + page_size - 1) / page_size else 0

unfoldable pub has_next : ℕ → ℕ → ℕ → Bool
unfolding total_pages
has_next total page page_size = ltb page (total_pages total page_size)

unfoldable pub list_response : Web → String → List Row → ℕ → ℕ → ℕ → Response
unfolding total_pages has_next
list_response w language items total page page_size = record {
  status_code = 200;
  content =
      ("status", str "success")
      ∷ ("message", str (translate w "success.lists_retrieved" language []))
      ∷ ("status_code", num (pos 200))
      ∷ ("code", str "2000")
      ∷ ("data", seq (items_of (map (λ item. obj (fields_of item)) items)))
      ∷ ("total", num (pos total))
      ∷ ("page", num (pos page))
      ∷ ("page_size", num (pos page_size))
      ∷ ("total_pages", num (pos (total_pages total page_size)))
      ∷ ("has_next", bool (has_next total page page_size))
      ∷ ("has_previous", bool (ltb 1 page))
      ∷ [];
}

-- `model_validate` and `model_dump` of a class, or pydantic's `ValidationError`.
unfoldable pub dump : Web → String → Row → Action Row
dump w model row = elim (w.validate model row) [
  | valid dumped ↦ pure dumped
  | invalid errors ↦ raise (model_error errors)
]

-- `[Model.model_validate(item).model_dump(mode="json") for item in items]`.
unfoldable pub dump_all : Web → String → List Row → Action (List Row)
unfolding dump
dump_all w model [] = pure []
dump_all w model (row ∷ rows) = do
  dumped ← dump w model row
  rest ← dump_all w model rows
  pure (dumped ∷ rest)
