-- ===== src/Examples/Requests.antt =====
-- The theorems on whole requests, at one request each.
use python_workflow_service.Prelude.{◌≡◌, ◌+◌, ltb, length, arith, pos, refl, some, List, [], ◌∷◌}
use python_workflow_service.Value.{bool, str, num, py_str}
use python_workflow_service.Value.Dict.{Row, get, has_key}
use python_workflow_service.Store.{Table, assets, api_keys}
use python_workflow_service.Store.Outside.{Kept}
use python_workflow_service.Http.{Web, valid, list_response}
use python_workflow_service.Http.Pages.{list_response-next}
use python_workflow_service.Store.Query.{list_page, is_active}
use python_workflow_service.Store.Order.{newer}
use python_workflow_service.Store.Paging.{rows_of, total_of}
use python_workflow_service.Services.ApiKeyService.{ApiKeyScope}
use python_workflow_service.Services.Security.{Headers}
use python_workflow_service.Webhooks.Worker.{World}
use python_workflow_service.Api.Assets
use python_workflow_service.Api.Isolation.{covers, body_of, handle_staff-Kept}
use python_workflow_service.Api.Serving.{Server, staff, to_assets, handle_staff}
use python_workflow_service.Api.Serving.Atomicity.{Outcome, serve-Outcome}
use python_workflow_service.Examples.{env, net, quiet}

-- Every schema takes every record as it is.
abbrev web : Web
web = record {
  translations = [];
  format = λ text params. some text;
  params = λ e. [];
  text_of = λ e. "error";
  phrase = λ n. "Unprocessable Entity";
  dumps = λ v. "{}";
  validate = λ model row. valid row;
}

abbrev server : Server
server = record {
  web = web;
  net = net;
  env = env;
  internal = "internal-token";
  duration_ms = 12;
  language = "en";
}

abbrev key_row : Row
key_row =
    ("id", str "k1")
    ∷ ("tenant_id", str "t1")
    ∷ ("project_id", str "p1")
    ∷ ("name", str "Main")
    ∷ ("key_hash", str "digest")
    ∷ ("record_status", str "active")
    ∷ []

-- An asset of another project, with the code that the request takes.
abbrev asset_row : Row
asset_row =
    ("id", str "a1")
    ∷ ("tenant_id", str "t1")
    ∷ ("project_id", str "p2")
    ∷ ("code", str "LIFT")
    ∷ ("record_status", str "active")
    ∷ []

abbrev own_row : Row
own_row =
    ("id", str "a2")
    ∷ ("tenant_id", str "t1")
    ∷ ("project_id", str "p1")
    ∷ ("code", str "PUMP")
    ∷ ("record_status", str "active")
    ∷ []

abbrev rows : Table → List Row
rows api_keys = key_row ∷ []
rows assets = asset_row ∷ own_row ∷ []
rows _ = []

abbrev world : World
world = record { db = record { rows = rows; reads = 0; locks = 0 }; traffic = quiet }

abbrev body : Row
body = ("name", str " Lift ") ∷ ("code", str "LIFT") ∷ ("category_id", str "c1") ∷ []

abbrev scope : ApiKeyScope
scope = record {
  tenant_id = str "t1";
  project_id = str "p1";
  api_key_id = str "k1";
  api_key_name = str "Main";
}

abbrev headers : Headers
headers = record {
  x_internal_token = "";
  x_api_key = "a-token-of-sixteen";
  x_tenant_id = "";
  x_project_id = "";
}

-- The category of the request is missing, after the key has been marked as used.
serve-Outcome_example : Outcome server (staff headers (to_assets (Assets.create body))) world
serve-Outcome_example = serve-Outcome server (staff headers (to_assets (Assets.create body))) world

handle_staff-Kept_example :
    Kept "t1" "p1" world.db
      (handle_staff server scope (to_assets (Assets.update "a2" body)) world).1.db
unfolding covers body_of Assets.body_of has_key py_str
handle_staff-Kept_example =
    handle_staff-Kept server scope (to_assets (Assets.update "a2" body)) world refl refl refl
      (refl, refl)

abbrev message : Row
message = ("jsonrpc", str "2.0") ∷ ("id", num (pos 7)) ∷ ("method", str "tools/list") ∷ []

-- Two assets, one on a page.
list_response-next_example :
    get
      (list_response web "en"
        (asset_row ∷ [])
        (total_of (list_page assets is_active newer 1 1 world.db))
        1
        1).content
      "has_next"
    ≡ bool (ltb 0 (length (rows_of (list_page assets is_active newer (1 + 1) 1 world.db))))
list_response-next_example =
    list_response-next web "en" (asset_row ∷ []) assets is_active newer 1 1 world.db (omega arith)
