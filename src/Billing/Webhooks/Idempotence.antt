-- ===== src/Billing/Webhooks/Idempotence.antt =====
-- Which events are processed: what `handleStripeWebhook` of
-- services/control-plane/src/modules/billing/billing.service.ts does with a redelivery.
use absolo_cloud_services.Base.{
  ℕ, ◌+◌, ◌≤◌, String, ◌≡◌, refl, ap, ◌∙◌, Bool, true, false, ◌&&◌, not, Bool-cases, inl, inr, some,
  is_some, ◌==◌, eq_refl, eq_comm, count, head?, filter, Option-cases, head?-filter-none,
  head?-filter-count, arith,
}
use absolo_cloud_services.Result.{ok, Result-cases}
use absolo_cloud_services.Runtime.Env.{Env}
use absolo_cloud_services.Runtime.State.{State}
use absolo_cloud_services.Runtime.Stripe.{Event}
use absolo_cloud_services.Runtime.Action.{pure, ◌>>◌, in_table, insert_or_ignore, lift}
use absolo_cloud_services.Runtime.Laws.{
  >>=-eq-ok, catch-ok, catch-err, >>=-ok, >>=-err, insert_or_ignore_present, count-update_keeps,
  count-update_none,
}
use absolo_cloud_services.Runtime.Tables.Billing.{stripe_webhook_events}
use absolo_cloud_services.Schema.Billing.{WebhookEvent}
use absolo_cloud_services.Billing.Webhooks.{
  answer, Receipt, dispatch_webhook_event, is_processed, logged_event, process, attempt, receive,
  record_failure, accept, handle_stripe_webhook,
}
use absolo_cloud_services.Billing.Webhooks.Frames.{dispatch_webhook_event_frame}

abbrev pub is_for : String → WebhookEvent → Bool
is_for id r = r.stripe_event_id == id

abbrev pub is_pending : String → WebhookEvent → Bool
is_pending id r = is_for id r && not (is_some r.processed_at)

module _ ⦃env : Env⦄ where
  -- The log holds the event, and every row of it is marked as processed.
  pub record IsProcessed (id : String) (s : State) : Type 0 where
    pub none_pending : count (is_pending id) (in_table stripe_webhook_events s) ≡ 0
    pub logged : 1 ≤ count (is_for id) (in_table stripe_webhook_events s)

  pub IsProcessed-selected :
      (id : String) (s : State)
      → IsProcessed id s
      → is_processed (head? (filter (is_for id) (in_table stripe_webhook_events s))) ≡ true
  IsProcessed-selected id s h =
      elim (Option-cases (head? (filter (is_for id) (in_table stripe_webhook_events s)))) [
        | inl e ↦ absurd (
            omega
              (arith, head?-filter-none (is_for id) (in_table stripe_webhook_events s) e, h.logged))
        | inr (r, e) ↦ elim (Bool-cases (is_some r.processed_at)) [
          | inl done ↦ rw e done
          | inr pending ↦ absurd (
              omega (
                arith,
                head?-filter-count (is_for id) (λ r. not (is_some r.processed_at))
                    (in_table stripe_webhook_events s) e (rw pending),
                h.none_pending,
              ))
        ]
      ]

  module _ (event : Event) where
    pub dispatched_log :
        (s : State)
        → (dispatch_webhook_event event.notice s).1.stripe_webhook_events ≡ s.stripe_webhook_events
    dispatched_log s =
        dispatch_webhook_event_frame (λ u. u.stripe_webhook_events) (λ _ _ _ _ _. refl) event.notice
          s

    stamp : ℕ → WebhookEvent → WebhookEvent
    stamp at r = record r { processed_at = some at }

    process-IsProcessed :
        (s : State)
        → 1 ≤ count (is_for event.id) (in_table stripe_webhook_events s)
        → (process event s).0 ≡ ok tt
        → IsProcessed event.id (process event s).1
    unfolding process stamp
    process-IsProcessed s here done =
        elim (Result-cases (dispatch_webhook_event event.notice s).0) [
          | inr (e, thrown) ↦
              cc (rw (>>=-err (dispatch_webhook_event event.notice) _ s thrown) at done)
          | inl (_, e) ↦
              let u = (dispatch_webhook_event event.notice s).1 in
              rw (>>=-ok (dispatch_webhook_event event.notice) _ s e) (record {
                none_pending =
                    count-update_none (is_pending event.id) (is_for event.id) _
                      u.stripe_webhook_events (λ r h. ground arith) (λ r h. ground arith);
                logged =
                    rw
                      (
                        count-update_keeps (is_for event.id) (is_for event.id)
                            (stamp (env.clock u.tick)) u.stripe_webhook_events (λ _. refl),
                        dispatched_log s,
                      )
                      here;
              })
        ]

    attempt-eq-ok :
        (s : State)
        → (attempt event s).0 ≡ ok tt
        → ((process event s).0 ≡ ok tt) × ((attempt event s).1 ≡ (process event s).1)
    unfolding attempt record_failure
    attempt-eq-ok s done = elim (Result-cases (process event s).0) [
      | inl (_, e) ↦ (e, ap (λ o. o.1) (catch-ok (process event) (record_failure event) s e))
      | inr (e, thrown) ↦
          cc (rw (catch-err (process event) (record_failure event) s thrown) at done)
    ]

    pub accept-IsProcessed :
        (s : State) {receipt : Receipt}
        → (accept event s).0 ≡ ok receipt
        → IsProcessed event.id (accept event s).1
    unfolding accept
    accept-IsProcessed s {receipt} done =
        let row = logged_event event (env.clock s.tick) in
        let s' : State = record s { tick = s.tick + 1 } in
        let ins = insert_or_ignore stripe_webhook_events row in
        let fresh : Receipt = record { received = true; duplicate = false } in
        let (_, inserted, rest, same) = >>=-eq-ok ins (λ _. attempt event >> pure fresh) s' done in
        let u = (ins s').1 in
        let (_, succeeded, _, same') = >>=-eq-ok (attempt event) (λ _. pure fresh) u rest in
        let (processed, same_log) = attempt-eq-ok u succeeded in
        let here =
          insert_or_ignore_present stripe_webhook_events (is_for event.id) row s'
            (λ r' h. eq_comm r'.stripe_event_id event.id ∙ h) (eq_refl event.id) inserted in
        rw (same, same', same_log) (process-IsProcessed u here processed)

  pub receive_again :
      (event : Event) (s : State)
      → is_processed (head? (filter (is_for event.id) (in_table stripe_webhook_events s))) ≡ true
      → receive event s ≡ (ok (record { received = true; duplicate = true }), s)
  unfolding receive
  receive_again event s known = ap (λ b. answer b event s) known

  pub receive_first :
      (event : Event) (s : State)
      → is_processed (head? (filter (is_for event.id) (in_table stripe_webhook_events s))) ≡ false
      → receive event s ≡ accept event s
  unfolding receive
  receive_first event s new = ap (λ b. answer b event s) new

  pub handle_stripe_webhook_lem :
      (payload signature : String) (s : State) {event : Event}
      → env.construct_event payload signature env.stripe_webhook_secret ≡ ok event
      → handle_stripe_webhook payload signature s ≡ receive event s
  unfolding handle_stripe_webhook
  handle_stripe_webhook_lem payload signature s signed =
      >>=-ok (lift (env.construct_event payload signature env.stripe_webhook_secret)) receive s
        signed
