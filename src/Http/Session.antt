-- ===== src/Http/Session.antt =====
-- The sessions of src/app/core/db/postgres/database.py: `schedule_after_commit` and
-- `async_get_db_session`, which commits or rolls back and runs what was scheduled. A callback acts on a
-- world outside of the database, and returns or raises.
use python_workflow_service.Prelude.{Option, none, some, List, [], ◌∷◌, ◌++◌, get_or_else}
use python_workflow_service.Store.{Db, Result, ok, err, Error}

abbrev pub Callback : Type 0 → Type 0
Callback W = W → Option Error × W

-- A session, with its list of callbacks where `session.info` has one.
pub record Session (W : Type 0) : Type 0 where
  pub db : Db
  pub callbacks : Option (List (Callback W))

-- The rows are those before; what was read from outside stays read, and a lock of the session
-- outlives the transaction.
unfoldable pub rollback : Db → Db → Db
rollback before after = record after { rows = before.rows }

-- What is left of a session: its result, what is committed, and the world.
pub record Ended (A : Type 0) (W : Type 0) : Type 0 where
  pub result : Result A
  pub committed : Db
  pub world : W

module _ {W : Type 0} where
  unfoldable pub schedule_after_commit : Callback W → Session W → Session W
  schedule_after_commit callback s = record s {
    callbacks = some (get_or_else s.callbacks [] ++ callback ∷ []);
  }

  -- The loop of `run_after_commit_callbacks`.
  unfoldable pub run_callbacks : List (Callback W) → W → Option Error × W
  run_callbacks [] world = (none, world)
  run_callbacks (callback ∷ callbacks) world =
      let (raised, world') = callback world in
      elim raised [ none ↦ run_callbacks callbacks world' | some e ↦ (some e, world') ]

  module _ {A : Type 0} where
    -- A callback that raises comes too late for a rollback; those behind it are discarded.
    unfoldable pub after_commit : A → Db → Option Error × W → Ended A W
    after_commit a db (none, world) = record { result = ok a; committed = db; world = world }
    after_commit a db (some e, world) = record { result = err e; committed = db; world = world }

    unfoldable pub end_session : Db → Result A × Session W → W → Ended A W
    unfolding rollback run_callbacks after_commit
    end_session before (ok a, s) world =
        after_commit a s.db (run_callbacks (get_or_else s.callbacks []) world)
    end_session before (err e, s) world = record {
      result = err e;
      committed = rollback before s.db;
      world = world;
    }

    unfoldable pub async_get_db_session : (Session W → Result A × Session W) → Db → W → Ended A W
    unfolding end_session
    async_get_db_session body db world =
        end_session db (body (record { db = db; callbacks = none })) world
