-- ===== src/Webhooks/Worker/Progress.antt =====
-- What `deliver_webhook` of src/app/workers/schedulers/webhook_delivery_worker.py leaves in the outbox.
use python_workflow_service.Prelude.{
  ℕ, zero, suc, ◌+◌, ◌-◌, ◌≤◌, ◌<◌, String, ◌≡◌, refl, ◌∙◌, true, false, Option, none, some, [],
  ◌∷◌, find, arith, inl, inr, ◌⊎◌, leb, pos,
}
use python_workflow_service.Value.{num, truthy, bool}
use python_workflow_service.Value.Dict.{Row, get, has_key, merge, get-merge, last_write}
use python_workflow_service.Store.{Db, webhook_deliveries}
use python_workflow_service.Store.Query.{column_is}
use python_workflow_service.Store.Laws.{column_is-merge, find-update_where_kept}
use python_workflow_service.Crud.WebhookDeliveries
use python_workflow_service.Scheduler.Data.{text_of}
use python_workflow_service.Webhooks.{Net, Traffic}
use python_workflow_service.Webhooks.Worker.{
  World, Tried, done, raised, Attempted, deliver_webhook, finish, record_result, prior_attempts,
  post_with_retries, delivered_status, status_value, error_text,
}
use python_workflow_service.Webhooks.Worker.Attempts.{Ends, least, post_with_retries_lem}

-- The row of the outbox that the item was claimed from.
abbrev pub row_of : Row → Db → Option Row
row_of item db = find (λ r. column_is r "id" (text_of item "id")) (db.rows webhook_deliveries)

-- The row records a number of attempts that has grown, to three at most.
pub record Recorded (item : Row) (db : Db) : Type 0 where
  pub row : Row
  pub attempts : ℕ
  pub stored : row_of item db ≡ some row
  pub counted : get row "attempt" ≡ num (pos attempts)
  pub more : prior_attempts item < attempts
  pub enough : attempts ≤ 3

-- The row after `update_result`.
pub recorded_row :
    (item : Row) (a : Attempted) (duration_ms : ℕ) (db : Db) (row : Row)
    → row_of item db ≡ some row
    → (row' : Row) × (row_of item (record_result item a duration_ms db) ≡ some row')
      × (get row' "attempt" ≡ num (pos a.attempts))
      × (get row' "delivered" ≡ bool (delivered_status a.status))
unfolding record_result WebhookDeliveries.update_result has_key last_write
recorded_row item a duration_ms db row here =
    let written : Row =
      ("response_status", status_value a.status)
      ∷ ("error", error_text a)
      ∷ ("attempt", num (pos a.attempts))
      ∷ ("duration_ms", num (pos duration_ms))
      ∷ ("delivered", bool (delivered_status a.status))
      ∷ [] in
    let id = text_of item "id" in
    (
      merge row written,
      find-update_where_kept (λ r. column_is r "id" id) (λ r. merge r written)
            (λ r h. column_is-merge r written "id" id refl ∙ h) (db.rows webhook_deliveries)
          ∙ rw here refl,
      get-merge row written "attempt" ∙ refl,
      get-merge row written "delivered" ∙ refl,
    )

-- How a delivery ends: an exception escapes and nothing is recorded, or the row records its attempts.
abbrev pub Delivered : Row → Db → Option String × World → Type 0
Delivered item db out =
    ((e : String) × (out.0 ≡ some e) × (out.1.db ≡ db)) ⊎ ((out.0 ≡ none) × Recorded item out.1.db)

counted_more : (n : ℕ) → n < 3 → suc n ≤ least (3 - n) n
counted_more zero h = omega arith
counted_more (suc zero) h = omega arith
counted_more (suc (suc zero)) h = omega arith
counted_more (suc (suc (suc n))) h = absurd (omega arith)

module _ (net : Net) (duration_ms : Row → ℕ) (item : Row) where
  finish_lem :
      (t : Tried) (s : Traffic) (db : Db) (row : Row)
      → leb 3 (prior_attempts item) ≡ false
      → truthy (get item "id") ≡ true
      → row_of item db ≡ some row
      → Ends
          (least (3 - prior_attempts item) (prior_attempts item))
          (prior_attempts item + (3 - prior_attempts item))
          t
      → Delivered item db (finish net duration_ms item t s db)
  unfolding finish
  finish_lem (raised e) s db row fewer named here ends = inl (e, refl, refl)
  finish_lem (done a) s db row fewer named here (low, high, clean) =
      let (row', stored, counted, marked) = recorded_row item a (duration_ms item) db row here in
      let below : prior_attempts item < 3 = ground arith in
      rw named (
        inr (
          refl,
          record {
            row = row';
            attempts = a.attempts;
            stored = stored;
            counted = counted;
            more = omega (arith, low, counted_more (prior_attempts item) below);
            enough = omega (arith, high, below);
          },
        ))

  -- Retries come to an end. A delivery with fewer than three attempts, claimed from a row of the
  -- outbox, ends in one of two ways: an exception escapes and the database is as it was, or the row
  -- records more attempts than before, and at most three.
  pub deliver_webhook-Delivered :
      (w : World) (row : Row)
      → leb 3 (prior_attempts item) ≡ false
      → truthy (get item "id") ≡ true
      → row_of item w.db ≡ some row
      → Delivered item w.db (deliver_webhook net duration_ms item w)
  unfolding deliver_webhook
  deliver_webhook-Delivered w row fewer named here =
      let tried = post_with_retries net item w.traffic in
      rw fewer (
        finish_lem tried.0 tried.1 w.db row fewer named here
          (post_with_retries_lem net item w.traffic).1)
