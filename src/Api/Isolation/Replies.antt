-- ===== src/Api/Isolation/Replies.antt =====
-- What the answers of src/app/core/utils/response_factory.py do to the rows of other tenants and projects.
use python_workflow_service.Prelude.{Bool, String, refl, ℕ, List, [], ◌∷◌}
use python_workflow_service.Value.Dict.{Row}
use python_workflow_service.Store.{Table, Action, pure, raise, model_error, ◌>>=◌}
use python_workflow_service.Store.Query.{list_page}
use python_workflow_service.Store.Outside.{Kept, Kept-refl}
use python_workflow_service.Http.{Web, Validated, valid, invalid, dump, dump_all}
use python_workflow_service.Services.{Scope}
use python_workflow_service.Services.Isolation.{Stays, bind-Stays, same-Stays}
use python_workflow_service.Api.Reply.{reply, listed, deleted}

module _ (w : Web) (language : String) (s : Scope) where
  dump-Stays : (model : String) (row : Row) → Stays s (dump w model row)
  unfolding dump
  dump-Stays model row db = go (w.validate model row)
    where
      go :
          (v : Validated)
          → Kept s.tenant_id s.project_id db
              (elim v as (λ x. Action Row) [
                | valid dumped ↦ pure dumped
                | invalid errors ↦ raise (model_error errors)
              ]
                db).1
      go (valid dumped) = Kept-refl s.tenant_id s.project_id db db refl
      go (invalid errors) = Kept-refl s.tenant_id s.project_id db db refl

  pub dump_all-Stays : (model : String) (rows : List Row) → Stays s (dump_all w model rows)
  unfolding dump_all
  dump_all-Stays model [] = same-Stays s {A = List Row} []
  dump_all-Stays model (row ∷ rows) =
      bind-Stays s (dump w model row) _ (dump-Stays model row) (λ dumped.
        bind-Stays s (dump_all w model rows) _ (dump_all-Stays model rows)
          (λ rest. same-Stays s (dumped ∷ rest)))

  reply-Stays :
      (model message_key : String) (status : ℕ) (custom_code : String) (record' : Row)
      → Stays s (reply w language model message_key status custom_code record')
  unfolding reply
  reply-Stays model message_key status custom_code record' =
      bind-Stays s (dump w model record') _ (dump-Stays model record')
        (λ payload db. Kept-refl s.tenant_id s.project_id db db refl)

  listed-Stays :
      (model : String) (page page_size : ℕ) (found : List Row × ℕ)
      → Stays s (listed w language model page page_size found)
  unfolding listed
  listed-Stays model page page_size found =
      bind-Stays s (dump_all w model found.0) _ (dump_all-Stays model found.0)
        (λ payload db. Kept-refl s.tenant_id s.project_id db db refl)

  list_page-Stays :
      (t : Table) (p : Row → Bool) (before : Row → Row → Bool) (page page_size : ℕ)
      → Stays s (list_page t p before page page_size)
  unfolding list_page
  list_page-Stays t p before page page_size db = Kept-refl s.tenant_id s.project_id db db refl

  -- What a route does with the answer of its service.
  pub replied-Stays :
      (act : Action Row) (model message_key : String) (status : ℕ) (custom_code : String)
      → Stays s act
      → Stays s (act >>= λ record'. reply w language model message_key status custom_code record')
  replied-Stays act model message_key status custom_code h =
      bind-Stays s act _ h (reply-Stays model message_key status custom_code)

  pub removed-Stays :
      (act : Action String) (model : String)
      → Stays s act
      → Stays s (act >>= λ id. deleted w language model id)
  removed-Stays act model h = bind-Stays s act _ h (λ id. reply-Stays model _ _ _ _)

  pub paged-Stays :
      (act : Action (List Row × ℕ)) (model : String) (page page_size : ℕ)
      → Stays s act
      → Stays s (act >>= λ found. listed w language model page page_size found)
  paged-Stays act model page page_size h = bind-Stays s act _ h (listed-Stays model page page_size)
