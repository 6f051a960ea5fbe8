-- ===== src/Lib.antt =====
-- The work order service: contracts whose maintenance visits become work orders, invoices of the
-- vendors, an audit trail, and webhooks that are queued in an outbox and posted by a worker.
--
-- The parts of the program and their files (paths from the root of the repository):
-- - Prelude: shared names, Boolean tests, lists, Python's text operations, integers.
-- - Calendar: the dates of the standard library that the program uses, `_add_months`, and ISO texts.
-- - Value: Python values and dicts; Value/Safe is `_deep_safe` and `snapshot_record`.
-- - Store: the tables as lists of rows, the session's actions, and in Store/Query the statements that
--   the classes of src/app/crud repeat; Store/Order and Store/Search are the ORDER BY clauses and
--   ILIKE; Store/Paging is about the pages and Store/Newest about the order of most lists.
--   An action takes the state and gives a result or an exception beside the new state; a row is the dict that the `_…_to_dict` functions build.
-- - Timeline, Models, Crud: src/app/core/utils/timeline.py and tokens.py, the column defaults of
--   src/app/models, and a module for each table of src/app/crud.
-- - Events: src/app/business/services/events_service.py.
-- - Schedule: the date functions of src/app/business/services/scheduler_service.py; Scheduler: its
--   class. The scheduler reads the contracts and the work orders, adds work orders, and records each
--   through Events, which fills the audit trail and the outbox.
-- - Webhooks: src/app/core/utils/webhook_url.py and src/app/core/services/webhook_client.py;
--   Webhooks/Worker: src/app/workers/schedulers/webhook_delivery_worker.py, which empties the outbox.
-- - Services: a module for each service of src/app/business/services that is modelled: contracts,
--   work orders, invoices, the vendor portal, payments, API keys, triggers, assets and their
--   categories, form and PDF templates, custom fields, the business profile, the logs and the MCP tools;
--   Services/Security is src/app/core/security, which asks the API key service. A payment changes its
--   invoice and its work order through their services; the triggers call the webhook guard.
-- - Http: src/app/core/i18n/translations.py and src/app/core/utils/response_factory.py; Http/Errors:
--   src/app/core/exception_handlers.py; Http/Pages: what an answer says of the next page;
--   Http/Session: the session of src/app/core/db/postgres/database.py, with its commit, rollback and
--   callbacks.
-- - Api: a module for each router of src/app/api/v1 that is modelled, whose requests are a data type
--   and whose routes call their service and build the answer; Api/Serving puts the dependencies before
--   a route, and the session and the exception handlers around it. Api/Mcp is src/app/api/mcp.py with
--   src/app/middleware/api_call_logging.py.
-- - Store/Outside, Events/Outside, Services/Isolation, Api/Isolation: what statements, events, services
--   and routes do to the rows of other tenants and projects.
-- - Examples: a concrete tenant, and each theorem with hypotheses applied to it.
--
-- What the program reads from outside is a parameter: `Env` holds the clock, uuids, secrets,
-- SHA-256, PostgreSQL's answer to the request for the lock and its order of texts; `Net` holds URL
-- parsing, address classes, the resolver and the answers to POSTs; `Web` holds the locale files,
-- `str.format`, json and the schemas of pydantic; `Server` puts them together with the internal
-- token of the settings and the language of the request. The clock and the network take the number
-- of the read, so that answers may differ from one read to the next.
--
-- Loops: the loop of `_iter_visit_dates` counts its own 1000 rounds; `next_occurrence` looks at as
-- many offsets as its span; the attempts of a delivery count down from three. All other loops go
-- through a list. So no bound is added to the program.
--
-- Not modelled: the routes of the vendors, uploads and the health check with their services, the
-- matching of paths and the decoding of requests, the field rules of the schemas, response headers,
-- rate limits and the set-up of the server and of the database's engine, concurrent sessions but
-- for the rows that are locked in a claim. An action itself leaves in the state what was written
-- before an exception; the session around a request rolls it back. A query reads a table in the order
-- of its list, where PostgreSQL may choose another one; a second row where one is selected does not
-- raise, and neither does an event whose record has no id. An amount is divided exactly, which is so
-- below 2 ^ 52. White space and letter case are ASCII. The largest year of `datetime` is not a bound
-- here.
pub mod Prelude
pub mod Calendar
pub mod Value
pub mod Store
pub mod Timeline
pub mod Models
pub mod Crud
pub mod Events
pub mod Schedule
pub mod Scheduler
pub mod Webhooks
pub mod Services
pub mod Http
pub mod Api
pub mod Examples
