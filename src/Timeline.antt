-- ===== src/Timeline.antt =====
-- src/app/core/utils/timeline.py and src/app/core/utils/tokens.py.
use python_workflow_service.Prelude.{String, List, [], ◌∷◌, ◌++◌}
use python_workflow_service.Value.{Value, str, seq, obj, items, items_of, instant_isoformat}
use python_workflow_service.Value.Dict.{Row, fields_of, merge}
use python_workflow_service.Store.{Env, Action, pure, fresh, ◌>>=◌}

module _ (env : Env) where
  -- `new_timeline_event`: the keys of the event win over the id and the time.
  unfoldable pub new_timeline_event : Row → Action Value
  unfolding merge instant_isoformat
  new_timeline_event event = do
    id ← fresh env.uuid_text
    now ← fresh env.now
    pure (obj (fields_of (merge (("id", str id) ∷ ("at", str (instant_isoformat now)) ∷ []) event)))

  -- `hash_vendor_token`.
  unfoldable pub hash_vendor_token : String → String
  hash_vendor_token raw = env.sha256_hex raw

  -- `generate_vendor_token`: the token and its hash.
  unfoldable pub generate_vendor_token : Action (String × String)
  generate_vendor_token = do raw ← fresh env.token_urlsafe; pure (raw, env.sha256_hex raw)

-- `list(timeline or [])`.
abbrev pub timeline_items : Value → List Value
timeline_items (seq vs) = items vs
timeline_items _ = []

-- `timeline.append(event)`.
unfoldable pub append_event : Value → Value → Value
append_event timeline event = seq (items_of (timeline_items timeline ++ event ∷ []))
