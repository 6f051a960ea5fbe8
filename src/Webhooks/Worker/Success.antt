-- ===== src/Webhooks/Worker/Success.antt =====
-- A delivery to an endpoint that answers:
-- src/app/workers/schedulers/webhook_delivery_worker.py.
use python_workflow_service.Prelude.{
  ℕ, suc, ◌+◌, ◌-◌, String, ◌≡◌, refl, ◌∙◌, ap, true, false, Option, none, some, [], ◌∷◌, ◌++◌,
  length, length-append, arith, leb, pos, if◌then◌else◌,
}
use python_workflow_service.Value.{num, truthy, bool, obj, end, or_default}
use python_workflow_service.Value.Dict.{Row, get}
use python_workflow_service.Scheduler.Data.{text_of}
use python_workflow_service.Webhooks.{
  Net, Traffic, Request, answered, passed, validate_outbound_webhook_url, post_webhook,
  build_request,
}
use python_workflow_service.Webhooks.Silent.{validate_posts}
use python_workflow_service.Webhooks.Worker.{
  World, done, Attempted, deliver_webhook, finish, prior_attempts, post_item, attempt_from,
  post_with_retries, is_success,
}
use python_workflow_service.Webhooks.Worker.Progress.{row_of, recorded_row}

-- The outbox after a success: the row is delivered, with one more attempt, and there was one POST.
pub record Succeeded (item : Row) (w : World) (out : Option String × World) : Type 0 where
  pub row : Row
  pub quiet : out.0 ≡ none
  pub stored : row_of item out.1.db ≡ some row
  pub delivered : get row "delivered" ≡ bool true
  pub counted : get row "attempt" ≡ num (pos (prior_attempts item + 1))
  pub once : length out.1.traffic.posts ≡ length w.traffic.posts + 1

module _ (net : Net) (item : Row) (status : ℕ) (cleaned : String) where
  -- The guard lets the URL through, whenever it is asked.
  abbrev pub Open : Type 0
  Open =
      (s : Traffic)
      → (validate_outbound_webhook_url net (text_of item "webhook_url") s).0 ≡ passed cleaned

  -- The endpoint gives the status to every POST.
  abbrev pub Accepts : Type 0
  Accepts = (n : ℕ) (r : Request) → net.post n r ≡ answered status

  post_item-answered :
      (s : Traffic)
      → Open
      → Accepts
      → ((post_item net item s).0 ≡ answered status)
        × (r : Request) × ((post_item net item s).1.posts ≡ s.posts ++ r ∷ [])
  unfolding post_item post_webhook
  post_item-answered s allowed accepts =
      let request =
        build_request net cleaned (if truthy (get item "secret") then text_of item "secret" else "")
          (text_of item "event") (or_default (get item "request_payload") (obj end)) in
      rw (allowed s, post_webhook)
        (
          accepts _ _,
          request,
          ap (λ l. l ++ request ∷ []) (validate_posts net (text_of item "webhook_url") s),
        )

  attempt_from-answered :
      (rounds : ℕ) (a : Attempted) (s : Traffic)
      → Open
      → Accepts
      → is_success status ≡ true
      → ((attempt_from net (suc rounds) item a s).0
          ≡ done (record { status = some status; error = none; attempts = a.attempts + 1 }))
        × (r : Request) × ((attempt_from net (suc rounds) item a s).1.posts ≡ s.posts ++ r ∷ [])
  unfolding attempt_from
  attempt_from-answered rounds a s allowed accepts success =
      let s' = (validate_outbound_webhook_url net (text_of item "webhook_url") s).1 in
      let (answer, r, posts) = post_item-answered s' allowed accepts in
      rw (allowed s, answer, success, attempt_from)
        (refl, r, posts ∙ ap (λ l. l ++ r ∷ []) (validate_posts net (text_of item "webhook_url") s))

  -- A delivery succeeds at once. Where the guard lets the URL of a claimed delivery through
  -- whenever it is asked, and the endpoint answers every POST with a status from 200 to 299, a
  -- delivery with fewer than three attempts is over after one POST: no exception escapes, and its
  -- row of the outbox is marked delivered, with one more attempt.
  pub deliver_webhook-Succeeded :
      (duration_ms : Row → ℕ) (w : World) (row : Row)
      → Open
      → Accepts
      → is_success status ≡ true
      → leb 3 (prior_attempts item) ≡ false
      → truthy (get item "id") ≡ true
      → row_of item w.db ≡ some row
      → Succeeded item w (deliver_webhook net duration_ms item w)
  unfolding deliver_webhook finish post_with_retries
  deliver_webhook-Succeeded duration_ms w row allowed accepts success fewer named here =
      let start : Attempted = record {
        status = none;
        error = none;
        attempts = prior_attempts item;
      } in
      let a : Attempted = record {
        status = some status;
        error = none;
        attempts = prior_attempts item + 1;
      } in
      let (tried, r, posts) =
        attempt_from-answered (2 - prior_attempts item) start w.traffic allowed accepts success in
      let rounds : 3 - prior_attempts item ≡ suc (2 - prior_attempts item) = ground arith in
      let (row', stored, counted, marked) = recorded_row item a (duration_ms item) w.db row here in
      rw (fewer, rounds, tried, named)
        (record {
          row = row';
          quiet = refl;
          stored = stored;
          delivered = marked ∙ ap bool success;
          counted = counted;
          once = ap length posts ∙ length-append w.traffic.posts (r ∷ []);
        })
