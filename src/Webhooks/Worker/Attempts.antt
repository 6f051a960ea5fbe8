-- ===== src/Webhooks/Worker/Attempts.antt =====
-- The attempts of src/app/workers/schedulers/webhook_delivery_worker.py: how many there are, and
-- where they go.
use mathlib.Core.List.{append-nil, append_assoc}
use python_workflow_service.Prelude.{
  Bool, ℕ, zero, suc, ◌+◌, ◌-◌, ◌≤◌, ◌≡◌, refl, sym, ◌∙◌, String, true, false, none, some, List, [],
  ◌∷◌, ◌++◌, length, length-append, All, All-append, arith, Bool-cases, inl, inr, ltb, min, ◌⊎◌, ap,
}
use python_workflow_service.Prelude.Text.{strip}
use python_workflow_service.Value.Dict.{Row}
use python_workflow_service.Webhooks.{
  Net, Traffic, Request, Check, passed, refused, Reply, answered, failed, escaped,
  validate_outbound_webhook_url, post_webhook, send, build_request,
}
use python_workflow_service.Webhooks.Silent.{validate_posts}
use python_workflow_service.Webhooks.Guard.{IsSafe, validate_outbound_webhook_url-IsSafe}
use python_workflow_service.Scheduler.Data.{text_of}
use python_workflow_service.Webhooks.Worker.{
  Attempted, Tried, done, raised, attempt_from, post_item, post_with_retries, pause, is_success,
  max_attempts, prior_attempts, delivered_status, backoff,
}

-- The wait after an attempt is one of those listed: the index is never out of range.
backoff_lem : (attempt : ℕ) → (seconds : ℕ) × (backoff attempt ≡ some seconds)
unfolding backoff
backoff_lem zero = (_, refl)
backoff_lem (suc zero) = (_, refl)
backoff_lem (suc (suc n)) =
    let last : min (suc (suc n) - 1) 1 ≡ 1 = omega arith in (30, rw last refl)

pause_posts : (n : ℕ) (s : Traffic) → (pause n s).posts ≡ s.posts
unfolding pause
pause_posts n s = elim (Bool-cases (ltb n max_attempts)) [ inl h ↦ rw h refl | inr h ↦ rw h refl ]

-- The result counts its attempts, and a success has no error.
abbrev pub Ends : ℕ → ℕ → Tried → Type 0
Ends low high (raised e) = Unit
Ends low high (done b) =
    (low ≤ b.attempts) × (b.attempts ≤ high) × (delivered_status b.status ≡ true → b.error ≡ none)

-- The number of attempts after at least one of the rounds, if there are any.
abbrev pub least : ℕ → ℕ → ℕ
least zero n = n
least (suc rounds) n = suc n

least_le : (rounds n : ℕ) → n ≤ least rounds n
least_le zero n = omega arith
least_le (suc rounds) n = omega arith

Ends-weaken :
    {low low' high high' : ℕ} (t : Tried)
    → low' ≤ low
    → high ≤ high'
    → Ends low high t
    → Ends low' high' t
Ends-weaken (raised e) h k ends = tt
Ends-weaken (done b) h k (l, u, e) = (omega (arith, h, l), omega (arith, u, k), e)

Reply-cases :
    (r : Reply)
    → ((e : String) × (r ≡ escaped e))
      ⊎ ((e : String) × (r ≡ failed e))
      ⊎ ((n : ℕ) × (r ≡ answered n))
Reply-cases (escaped e) = inl (e, refl)
Reply-cases (failed e) = inr (inl (e, refl))
Reply-cases (answered n) = inr (inr (n, refl))

Check-cases : (k : Check) → ((e : String) × (k ≡ refused e)) ⊎ ((c : String) × (k ≡ passed c))
Check-cases (refused e) = inl (e, refl)
Check-cases (passed c) = inr (c, refl)

module _ (net : Net) where
  -- The POSTs between two states: at most `most`, all to the URL, each checked by the guard.
  pub record Sent (url : String) (most : ℕ) (s s' : Traffic) : Type 0 where
    pub added : List Request
    pub posted : s'.posts ≡ s.posts ++ added
    pub few : length added ≤ most
    pub safe : All (λ r. (r.target ≡ strip url) × (n : ℕ) × IsSafe net n r.target) added

  Sent-none : (url : String) (most : ℕ) (s s' : Traffic) → s'.posts ≡ s.posts → Sent url most s s'
  Sent-none url most s s' h = record {
    added = [];
    posted = h ∙ sym (append-nil s.posts);
    few = omega arith;
    safe = tt;
  }

  Sent-more :
      (url : String) {rounds : ℕ} (s s' : Traffic) → Sent url 1 s s' → Sent url (suc rounds) s s'
  Sent-more url s s' a = record {
    added = a.added;
    posted = a.posted;
    few = omega (arith, a.few);
    safe = a.safe;
  }

  Sent-trans :
      (url : String) {m n most : ℕ} (s t u : Traffic)
      → Sent url m s t
      → Sent url n t u
      → m + n ≤ most
      → Sent url most s u
  Sent-trans url s t u a b enough = record {
    added = a.added ++ b.added;
    posted = b.posted ∙ ap (λ l. l ++ b.added) a.posted ∙ append_assoc s.posts a.added b.added;
    few = omega (arith, length-append a.added b.added, a.few, b.few, enough);
    safe = All-append _ a.added b.added a.safe b.safe;
  }

  send-Sent :
      (url : String) (r : Request) (s s₁ : Traffic) (n : ℕ)
      → s₁.posts ≡ s.posts
      → r.target ≡ strip url
      → IsSafe net n r.target
      → Sent url 1 s (send net r s₁).1
  send-Sent url r s s₁ n same target safe = record {
    added = r ∷ [];
    posted = ap (λ l. l ++ r ∷ []) same;
    few = omega arith;
    safe = ((target, n, safe), tt);
  }

  post_item-Sent :
      (item : Row) (s : Traffic) → Sent (text_of item "webhook_url") 1 s (post_item net item s).1
  unfolding post_item post_webhook build_request
  post_item-Sent item s =
      let url = text_of item "webhook_url" in
      elim (Check-cases (validate_outbound_webhook_url net url s).0) [
        | inl (e, h) ↦ rw (h, post_webhook) (Sent-none url 1 s _ (validate_posts net url s))
        | inr (c, h) ↦
            let (same, safe) = validate_outbound_webhook_url-IsSafe net url s c h in
            rw (h, post_webhook)
              (send-Sent url _ s _ s.lookups (validate_posts net url s) same safe)
      ]

  -- What the loop does from a state whose last attempt was not a success.
  Looped : Row → ℕ → Attempted → Traffic → Type 0
  Looped item rounds a s =
      let out = attempt_from net rounds item a s in
      Sent (text_of item "webhook_url") rounds s out.1
      × Ends (least rounds a.attempts) (a.attempts + rounds) out.0

  -- The loop after an attempt that failed.
  retried :
      (item : Row) (rounds : ℕ) (before : ℕ) (a : Attempted) (s t : Traffic)
      → a.attempts ≡ before + 1
      → Sent (text_of item "webhook_url") 1 s t
      → Looped item rounds a (pause a.attempts t)
      → (let out = attempt_from net rounds item a (pause a.attempts t) in
          Sent (text_of item "webhook_url") (suc rounds) s out.1
          × Ends (suc before) (before + suc rounds) out.0)
  unfolding Looped
  retried item rounds before a s t next sent (looped, ends) =
      let url = text_of item "webhook_url" in
      let out = attempt_from net rounds item a (pause a.attempts t) in
      (
        Sent-trans url {m = 1} {n = rounds} s t out.1 sent
            (record {
              added = looped.added;
              posted = looped.posted ∙ ap (λ l. l ++ looped.added) (pause_posts a.attempts t);
              few = looped.few;
              safe = looped.safe;
            })
            (omega arith),
        Ends-weaken out.0 (omega (arith, next, least_le rounds a.attempts)) (omega (arith, next))
            ends,
      )

  attempt_from_lem :
      (item : Row) (rounds : ℕ) (a : Attempted) (s : Traffic)
      → delivered_status a.status ≡ false
      → Looped item rounds a s
  unfolding attempt_from Looped
  attempt_from_lem item zero a s open' =
      (Sent-none (text_of item "webhook_url") 0 s s refl, (omega arith, omega arith, λ k. cc))
  attempt_from_lem item (suc rounds) a s open' =
      let url = text_of item "webhook_url" in
      let checked = validate_outbound_webhook_url net url s in
      elim (Check-cases checked.0) [
        | inl (e, h) ↦
            rw (h, attempt_from)
              (
                Sent-none url _ s _ (validate_posts net url s),
                (omega arith, omega arith, λ k. ground arith),
              )
        | inr (c, h) ↦
            let sent =
              Sent-trans url {most = 1} s checked.1 _
                (Sent-none url 0 s _ (validate_posts net url s)) (post_item-Sent item checked.1)
                (omega arith) in
            elim (Reply-cases (post_item net item checked.1).0) [
              | inl (e, r) ↦ rw (h, r, attempt_from) (Sent-more url s _ sent, tt)
              | inr (inl (e, r)) ↦
                  let next : Attempted = record {
                    status = none;
                    error = some e;
                    attempts = a.attempts + 1;
                  } in
                  rw (h, r, attempt_from)
                    (retried item rounds a.attempts next s _ refl sent
                      (attempt_from_lem item rounds next _ refl))
              | inr (inr (n, r)) ↦
                  let next : Attempted = record {
                    status = some n;
                    error = none;
                    attempts = a.attempts + 1;
                  } in
                  elim (Bool-cases (is_success n)) [
                    | inl success ↦
                        rw (h, r, success, attempt_from)
                          (Sent-more url s _ sent, (omega arith, omega arith, λ k. refl))
                    | inr failure ↦
                        rw (h, r, failure, attempt_from)
                          (retried item rounds a.attempts next s _ refl sent
                            (attempt_from_lem item rounds next _ failure))
                  ]
            ]
      ]

  -- The attempts that are counted: the POSTs that were made, and one more where the guard refused the
  -- URL before the last POST.
  abbrev pub Counted : ℕ → Traffic → Tried × Traffic → Type 0
  Counted prior s (raised e, s') = Unit
  Counted prior s (done b, s') =
      (b.attempts + length s.posts ≡ prior + length s'.posts)
      ⊎ ((b.attempts + length s.posts ≡ prior + length s'.posts + 1) × (b.status ≡ none))

  post_item-posts :
      (item : Row) (s : Traffic)
      → ((e : String) × ((post_item net item s).0 ≡ escaped e))
        ⊎ (length (post_item net item s).1.posts ≡ length s.posts + 1)
  unfolding post_item post_webhook
  post_item-posts item s =
      let url = text_of item "webhook_url" in
      elim (Check-cases (validate_outbound_webhook_url net url s).0) [
        | inl (e, h) ↦ rw (h, post_webhook) (inl (e, refl))
        | inr (c, h) ↦
            rw (h, post_webhook) (inr (rw (validate_posts net url s) (length-append s.posts _)))
      ]

  abbrev escapes : Reply → Bool
  escapes (escaped e) = true
  escapes r = false

  -- Where `post_webhook` returns, one POST was made.
  one_more :
      (item : Row) (s t : Traffic) (r : Reply)
      → (post_item net item t).0 ≡ r
      → escapes r ≡ false
      → t.posts ≡ s.posts
      → length (post_item net item t).1.posts ≡ length s.posts + 1
  one_more item s t r same returns before = elim (post_item-posts item t) [
    | inr more ↦ more ∙ ap (λ l. length l + 1) before
    | inl (e, raised') ↦ absurd (
        let clash : true ≡ false = sym (ap escapes raised') ∙ ap escapes same ∙ returns in
        ground arith)
  ]

  -- One more POST before the rest of the loop.
  Counted-next :
      (item : Row) (rounds : ℕ) (a : Attempted) (s t : Traffic) (n : ℕ)
      → a.attempts ≡ n + 1
      → length t.posts ≡ length s.posts + 1
      → Counted a.attempts t (attempt_from net rounds item a t)
      → Counted n s (attempt_from net rounds item a t)
  Counted-next item rounds a s t n next more h = go (attempt_from net rounds item a t) h
    where
      go : (out : Tried × Traffic) → Counted a.attempts t out → Counted n s out
      go (raised e, s') counted = tt
      go (done b, s') (inl all) = inl (omega (arith, all, next, more))
      go (done b, s') (inr (all, none')) = inr (omega (arith, all, next, more), none')

  attempt_from-Counted :
      (item : Row) (rounds : ℕ) (a : Attempted) (s : Traffic)
      → Counted a.attempts s (attempt_from net rounds item a s)
  unfolding attempt_from
  attempt_from-Counted item zero a s = inl refl
  attempt_from-Counted item (suc rounds) a s =
      let url = text_of item "webhook_url" in
      let checked = validate_outbound_webhook_url net url s in
      let same = validate_posts net url s in
      elim (Check-cases checked.0) [
        | inl (e, h) ↦ rw (h, attempt_from, Counted) (inr (rw same (omega arith), refl))
        | inr (c, h) ↦ elim (Reply-cases (post_item net item checked.1).0) [
          | inl (e, r) ↦ rw (h, r, attempt_from, Counted) tt
          | inr (inl (e, r)) ↦
              let next : Attempted = record {
                status = none;
                error = some e;
                attempts = a.attempts + 1;
              } in
              rw (h, r, attempt_from)
                (Counted-next item rounds next s
                  (pause next.attempts (post_item net item checked.1).1) a.attempts refl
                  (ap length (pause_posts next.attempts _)
                    ∙ one_more item s checked.1 (failed e) r refl same)
                  (attempt_from-Counted item rounds next _))
          | inr (inr (n, r)) ↦
              let next : Attempted = record {
                status = some n;
                error = none;
                attempts = a.attempts + 1;
              } in
              elim (Bool-cases (is_success n)) [
                | inl success ↦
                    rw (h, r, success, attempt_from, Counted)
                      (inl (
                        let more = one_more item s checked.1 (answered n) r refl same in
                        omega (arith, more)))
                | inr failure ↦
                    rw (h, r, failure, attempt_from)
                      (Counted-next item rounds next s
                        (pause next.attempts (post_item net item checked.1).1) a.attempts refl
                        (ap length (pause_posts next.attempts _)
                          ∙ one_more item s checked.1 (answered n) r refl same)
                        (attempt_from-Counted item rounds next _))
              ]
        ]
      ]

  -- `_post_with_retries` always ends. For a delivery with `n` earlier attempts it makes at most
  -- `3 - n` POSTs, each of them to the trigger's URL without the white space around it, after the
  -- guard let that URL through. If it returns, the attempts that it reports are `n` and the POSTs it
  -- made, and one more where the guard refused the URL in the end; they are at least one more than `n`
  -- and at most three if `n` was less than three, and `n` otherwise; and a delivered result has no error.
  pub post_with_retries_lem :
      (item : Row) (s : Traffic)
      → Sent
          (text_of item "webhook_url")
          (3 - prior_attempts item)
          s
          (post_with_retries net item s).1
        × Ends
            (least (3 - prior_attempts item) (prior_attempts item))
            (prior_attempts item + (3 - prior_attempts item))
            (post_with_retries net item s).0
        × Counted (prior_attempts item) s (post_with_retries net item s)
  unfolding post_with_retries Looped
  post_with_retries_lem item s =
      let start : Attempted = record {
        status = none;
        error = none;
        attempts = prior_attempts item;
      } in
      let (sent, ends) = attempt_from_lem item (3 - prior_attempts item) start s refl in
      (sent, ends, attempt_from-Counted item (3 - prior_attempts item) start s)
