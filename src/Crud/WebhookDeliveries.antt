-- ===== src/Crud/WebhookDeliveries.antt =====
-- src/app/crud/crud_webhook_deliveries.py. `FOR UPDATE SKIP LOCKED` passes over the rows that
-- another session has locked; `locked` tells which these are.
use Prim.Native.String.{compare as compare_text}
use Prim.Native.Nat.{Ordering}
use python_workflow_service.Prelude.{
  ℕ, String, Bool, true, false, not, ◌&&◌, none, some, List, [], ◌∷◌, map, take, find, pos,
  pos_part, ltb,
}
use python_workflow_service.Value.{Value, null, bool, num, truthy, py_str}
use python_workflow_service.Value.Dict.{Row, get, insert, merge}
use python_workflow_service.Models.{webhook_delivery_defaults}
use python_workflow_service.Store.{Env, Action, webhook_deliveries, triggers, gets, pure, ◌>>=◌}
use python_workflow_service.Prelude.Text.{is_empty}
use python_workflow_service.Store.Order.{newer}
use python_workflow_service.Store.Query.{
  column_is, insert_row, update_where, execute_update, select_all, sort, list_page,
}

-- The integer in a column that holds integers only.
abbrev pub int_column : Value → ℕ
int_column (num z) = pos_part z
int_column _ = 0

-- The WHERE clause of `claim_pending_batch` and `list_pending`.
unfoldable pub is_pending : ℕ → Row → Bool
unfolding get
is_pending max_attempts r =
    not (truthy (get r "delivered")) && ltb (int_column (get r "attempt")) max_attempts

-- ORDER BY id.
unfoldable pub id_before : Row → Row → Bool
unfolding get py_str
id_before a b = elim (compare_text (py_str (get a "id")) (py_str (get b "id"))) [
  | Ordering.lt ↦ true
  | _ ↦ false
]

-- The outer join with the trigger: its URL and secret, or NULL for both.
unfoldable pub with_trigger : List Row → Row → Row
unfolding get insert py_str
with_trigger ts r = elim (find (λ t. column_is t "id" (py_str (get r "trigger_id"))) ts) [
  | none ↦ insert "secret" null (insert "webhook_url" null r)
  | some t ↦ insert "secret" (get t "secret") (insert "webhook_url" (get t "webhook_url") r)
]

-- The WHERE clause of `list`.
unfoldable pub listed : String → String → Row → Bool
unfolding get
listed tenant_id project_id r =
    column_is r "tenant_id" tenant_id && column_is r "project_id" project_id

unfoldable pub list : String → String → ℕ → ℕ → Action (List Row × ℕ)
unfolding listed list_page newer
list tenant_id project_id page page_size =
    list_page webhook_deliveries (listed tenant_id project_id) newer page page_size

-- `WebhookDelivery.id > after_id`, where it is given.
unfoldable pub is_after : String → Row → Bool
unfolding get py_str
is_after after_id r = elim (compare_text after_id (py_str (get r "id"))) [
  | Ordering.lt ↦ true
  | _ ↦ is_empty after_id
]

unfoldable pub list_pending : ℕ → String → ℕ → Action (List Row)
unfolding is_pending is_after id_before with_trigger select_all sort
list_pending limit after_id max_attempts = do
  rows ← select_all webhook_deliveries (λ r. is_pending max_attempts r && is_after after_id r)
  ts ← gets (λ db. db.rows triggers)
  pure (map (with_trigger ts) (take limit (sort id_before rows)))

-- `claim_pending_batch`: up to `limit` pending rows that nobody has locked, by id.
unfoldable pub claim_pending_batch : (Row → Bool) → ℕ → ℕ → Action (List Row)
unfolding is_pending id_before with_trigger select_all sort
claim_pending_batch locked limit max_attempts = do
  rows ← select_all webhook_deliveries (λ r. is_pending max_attempts r && not (locked r))
  ts ← gets (λ db. db.rows triggers)
  pure (map (with_trigger ts) (take limit (sort id_before rows)))

unfoldable pub update_result : String → Value → Value → ℕ → ℕ → Bool → Action (Unit {0})
unfolding update_where merge get
update_result delivery_id response_status error attempt duration_ms delivered =
    execute_update webhook_deliveries (λ r. column_is r "id" delivery_id)
      (λ r. merge r (
        ("response_status", response_status)
        ∷ ("error", error)
        ∷ ("attempt", num (pos attempt))
        ∷ ("duration_ms", num (pos duration_ms))
        ∷ ("delivered", bool delivered)
        ∷ []))

unfoldable pub create : Env → Row → Action Row
unfolding insert_row webhook_delivery_defaults
create env = insert_row env webhook_deliveries "webhook_delivery" webhook_delivery_defaults
