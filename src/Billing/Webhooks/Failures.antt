-- ===== src/Billing/Webhooks/Failures.antt =====
-- A delivery whose handler throws, in `handleStripeWebhook` of
-- services/control-plane/src/modules/billing/billing.service.ts.
use absolo_cloud_services.Base.{
  ℕ, ◌+◌, String, ◌≡◌, refl, ap, ◌∙◌, inl, inr, Bool, true, false, ◌&&◌, Bool-cases, is_some, ◌==◌,
  head?, filter, count, head?-filter-count, Option-cases, arith,
}
use absolo_cloud_services.Result.{ok, err, Error, Result-cases}
use absolo_cloud_services.Runtime.Env.{Env}
use absolo_cloud_services.Runtime.State.{State}
use absolo_cloud_services.Runtime.Action.{pure, ◌>>◌, in_table, insert_or_ignore}
use absolo_cloud_services.Runtime.Laws.{
  >>=-ok, >>=-err, catch-ok, catch-err, count-update_keeps, insert_or_ignore_unseen,
}
use absolo_cloud_services.Runtime.Stripe.{Event}
use absolo_cloud_services.Runtime.Tables.Billing.{stripe_webhook_events}
use absolo_cloud_services.Schema.Billing.{WebhookEvent}
use absolo_cloud_services.Billing.Webhooks.{
  Receipt, dispatch_webhook_event, is_processed, logged_event, process, attempt, record_failure,
  accept, handle_stripe_webhook,
}
use absolo_cloud_services.Billing.Webhooks.Idempotence.{
  dispatched_log, receive_first, handle_stripe_webhook_lem,
}

abbrev pub is_done : String → WebhookEvent → Bool
is_done id r = r.stripe_event_id == id && is_some r.processed_at

module _ ⦃env : Env⦄ (event : Event) where
  -- How many rows of the event are marked as processed.
  abbrev pub done_rows : State → ℕ
  done_rows s = count (is_done event.id) (in_table stripe_webhook_events s)

  process_failed :
      (s : State) {e : Error}
      → (process event s).0 ≡ err e
      → (process event s).1.stripe_webhook_events ≡ s.stripe_webhook_events
  unfolding process
  process_failed s {e} failed = elim (Result-cases (dispatch_webhook_event event.notice s).0) [
    | inl (_, fine) ↦ cc (rw (>>=-ok (dispatch_webhook_event event.notice) _ s fine) at failed)
    | inr (e', thrown) ↦
        rw (>>=-err (dispatch_webhook_event event.notice) _ s thrown) (dispatched_log event s)
  ]

  attempt_failed :
      (s : State) {e : Error}
      → (attempt event s).0 ≡ err e
      → done_rows (attempt event s).1 ≡ done_rows s
  unfolding attempt record_failure
  attempt_failed s {e} failed = elim (Result-cases (process event s).0) [
    | inl (_, fine) ↦ cc (rw (catch-ok (process event) (record_failure event) s fine) at failed)
    | inr (e', thrown) ↦ rw (catch-err (process event) (record_failure event) s thrown) (
        count-update_keeps (is_done event.id) (λ r. r.stripe_event_id == event.id) _ _ (λ _. refl)
        ∙ ap (λ l. count (is_done event.id) (env.rows l)) (process_failed s {e = e'} thrown))
  ]

  accept_failed :
      (s : State) {e : Error}
      → (accept event s).0 ≡ err e
      → done_rows (accept event s).1 ≡ done_rows s
  unfolding accept
  accept_failed s {e} failed =
      let row = logged_event event (env.clock s.tick) in
      let s' : State = record s { tick = s.tick + 1 } in
      let ins = insert_or_ignore stripe_webhook_events row in
      let fresh : Receipt = record { received = true; duplicate = false } in
      let rest = λ (_ : Unit {0}). attempt event >> pure fresh in
      let logged : done_rows (ins s').1 ≡ done_rows s =
        insert_or_ignore_unseen stripe_webhook_events (is_done event.id) row s' (ground arith) in
      elim (Result-cases (ins s').0) [
        | inr (e', thrown) ↦ rw (>>=-err ins rest s' thrown) logged
        | inl (_, fine) ↦ elim (Result-cases (attempt event (ins s').1).0) [
          | inl (_, fine') ↦ cc (
              rw
                (>>=-ok ins rest s' fine, >>=-ok (attempt event) (λ _. pure fresh) (ins s').1 fine')
                at failed)
          | inr (e', thrown) ↦
              rw
                (
                  >>=-ok ins rest s' fine,
                  >>=-err (attempt event) (λ _. pure fresh) (ins s').1 thrown,
                )
                (attempt_failed (ins s').1 {e = e'} thrown ∙ logged)
        ]
      ]

module _ ⦃env : Env⦄ where
  not_processed :
      (event : Event) (s : State)
      → done_rows event s ≡ 0
      → is_processed
          (head? (filter (λ r. r.stripe_event_id == event.id) (in_table stripe_webhook_events s)))
        ≡ false
  not_processed event s none_done =
      let rows = in_table stripe_webhook_events s in
      elim (Option-cases (head? (filter (λ r. r.stripe_event_id == event.id) rows))) [
        | inl e ↦ rw e
        | inr (r, e) ↦ elim (Bool-cases (is_some r.processed_at)) [
          | inr pending ↦ rw e pending
          | inl done ↦ absurd (
              omega (
                arith,
                head?-filter-count (λ r. r.stripe_event_id == event.id)
                    (λ r. is_some r.processed_at) rows e done,
                none_done,
              ))
        ]
      ]

  -- A delivery of an event that is not marked as processed, and whose handling throws: no row of
  -- the event is marked as processed, so that a later delivery in the state that it leaves is
  -- processed anew, and not answered as a duplicate.
  pub handle_stripe_webhook_retry :
      (payload signature : String) (s : State) {event : Event} {e : Error}
      → env.construct_event payload signature env.stripe_webhook_secret ≡ ok event
      → done_rows event s ≡ 0
      → (handle_stripe_webhook payload signature s).0 ≡ err e
      → let s' = (handle_stripe_webhook payload signature s).1 in
        (done_rows event s' ≡ 0) × (handle_stripe_webhook payload signature s' ≡ accept event s')
  handle_stripe_webhook_retry payload signature s {event} {e} signed none_done failed =
      let first =
        handle_stripe_webhook_lem payload signature s signed
        ∙ receive_first event s (not_processed event s none_done) in
      let still : done_rows event (accept event s).1 ≡ 0 =
        accept_failed event s {e = e} (rw first at failed) ∙ none_done in
      let again =
        handle_stripe_webhook_lem payload signature (accept event s).1 signed
        ∙ receive_first event (accept event s).1 (not_processed event (accept event s).1 still) in
      rw first (still, again)
