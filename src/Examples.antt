-- ===== src/Examples.antt =====
-- A tenant with a monthly contract, and what the outside answers: the data of the examples, which
-- apply the theorems at one place each.
pub mod Dates
pub mod Runs
pub mod Deliveries
pub mod Tables
pub mod Keys
pub mod Calls
pub mod Templates
pub mod Requests
use python_workflow_service.Prelude.{
  String, Bool, true, false, not, Option, none, some, List, [], ◌∷◌, ltb, pos,
}
use python_workflow_service.Calendar.{Date}
use python_workflow_service.Value.{Value, Instant, null, bool, num, str, on, seq, nil}
use python_workflow_service.Value.Dict.{Row}
use python_workflow_service.Store.{
  Db, Env, Table, contracts, work_orders, invoices, payments, audit_events, triggers,
  webhook_deliveries, assets, asset_categories, form_templates, api_keys,
}
use python_workflow_service.Webhooks.Worker.{World}
use python_workflow_service.Webhooks.{
  Address, Url, no_port, Parsed, parsed, malformed, Net, Reply, answered, failed, Request, Traffic,
}

abbrev pub today : Date
today = record { year = 2025; month = 1; day = 30 }

abbrev pub noon : Instant
noon = record { on_date = today; hour = 12; minute = 0; second = 0; microsecond = 0 }

-- PostgreSQL grants the lock.
abbrev pub env : Env
env = record {
  now = λ n. noon;
  uuid_hex = λ n. "0123456789abcdef";
  uuid_text = λ n. "01234567-89ab";
  token_urlsafe = λ n. "a-token-of-sixteen";
  sha256_hex = λ s. "digest";
  lock_granted = λ n. true;
  collates = λ a b. false;
}

-- Visits on the 1st of February and of March.
abbrev pub contract : Row
contract =
    ("id", str "c1")
    ∷ ("tenant_id", str "t1")
    ∷ ("project_id", str "p1")
    ∷ ("title", str "Lifts")
    ∷ ("asset_ids", seq nil)
    ∷ ("status", str "active")
    ∷ ("visit_frequency", str "monthly")
    ∷ ("start_date", on (record { year = 2025; month = 2; day = 1 }))
    ∷ ("end_date", on (record { year = 2025; month = 3; day = 15 }))
    ∷ ("last_serviced_date", null)
    ∷ ("auto_generate_lead_days", null)
    ∷ ("record_status", str "active")
    ∷ []

abbrev pub daily_contract : Row
daily_contract =
    ("id", str "c2")
    ∷ ("visit_frequency", str "daily")
    ∷ ("start_date", on (record { year = 2025; month = 1; day = 29 }))
    ∷ ("end_date", on (record { year = 2025; month = 2; day = 1 }))
    ∷ ("last_serviced_date", null)
    ∷ []

abbrev pub ended_contract : Row
ended_contract =
    ("id", str "c1") ∷ ("status", str "terminated") ∷ ("record_status", str "active") ∷ []

abbrev pub work_order : Row
work_order =
    ("id", str "w1")
    ∷ ("tenant_id", str "t1")
    ∷ ("project_id", str "p1")
    ∷ ("contract_id", str "c1")
    ∷ ("source", str "contract")
    ∷ ("state", str "upcoming")
    ∷ ("scheduled_date", null)
    ∷ ("record_status", str "active")
    ∷ []

abbrev trigger : Row
trigger =
    ("id", str "g1")
    ∷ ("tenant_id", str "t1")
    ∷ ("project_id", str "p1")
    ∷ ("entity", str "work_order")
    ∷ ("event", str "created")
    ∷ ("is_active", bool true)
    ∷ ("record_status", str "active")
    ∷ []

abbrev rows : Table → List Row
rows contracts = contract ∷ []
rows work_orders = work_order ∷ []
rows triggers = trigger ∷ []
rows _ = []

abbrev pub db : Db
db = record { rows = rows; reads = 0; locks = 0 }

abbrev public_address : Address
public_address = record {
  is_private = false;
  is_loopback = false;
  is_link_local = false;
  is_multicast = false;
  is_reserved = false;
  is_unspecified = false;
}

abbrev hook_url : Url
hook_url = record {
  scheme = "https";
  username = none;
  password = none;
  hostname = some "hooks.example";
  port = no_port;
}

-- Every text is the hook's URL, every host has one public address, and every POST is answered by 500.
abbrev pub net : Net
net = record {
  parse = λ s. parsed hook_url;
  address = λ host. none;
  resolve = λ n host port. some (public_address ∷ []);
  post = λ n r. answered 500;
  dumps = λ v. "{}";
  hmac_sha256 = λ secret body. "mac";
  invalid = "Invalid webhook URL";
}

abbrev pub quiet : Traffic
quiet = record { lookups = 0; posts = []; sleeps = [] }

-- A delivery as `record_and_dispatch` queues it and the worker claims it.
abbrev pub delivery : Row
delivery =
    ("id", str "d1")
    ∷ ("event", str "work_order.created")
    ∷ ("attempt", num (pos 1))
    ∷ ("delivered", bool false)
    ∷ ("webhook_url", str " https://hooks.example/in ")
    ∷ ("secret", str "s")
    ∷ []

abbrev outbox : Table → List Row
outbox webhook_deliveries = delivery ∷ []
outbox _ = []

abbrev pub full_outbox : World
full_outbox = record { db = record { rows = outbox; reads = 0; locks = 0 }; traffic = quiet }
