-- ===== src/Billing/Webhooks/Redelivery.antt =====
-- A redelivery of an event that was processed, after other deliveries: `handleStripeWebhook` of
-- services/control-plane/src/modules/billing/billing.service.ts.
use absolo_cloud_services.Base.{
  ℕ, ◌+◌, ◌≤◌, String, ◌≡◌, refl, sym, ap, ◌∙◌, inl, inr, Bool, true, false, ◌&&◌, not, Bool-cases,
  some, is_some, ◌==◌, eq_refl, eq_iff, List, [], ◌∷◌, head?, filter, count, count_congr,
  count_split, count_pos_of_head?, head?-filter-count, Option-cases, arith,
}
use absolo_cloud_services.Result.{ok, Result-cases}
use absolo_cloud_services.Runtime.Env.{Env}
use absolo_cloud_services.Runtime.State.{State}
use absolo_cloud_services.Runtime.Action.{
  Action, pure, ◌>>=◌, ◌>>◌, lift, now, in_table, insert_or_ignore, update,
}
use absolo_cloud_services.Runtime.Laws.{
  >>=-ok, >>=-err, catch-ok, catch-err, >>-pure, insert_or_ignore_unseen,
}
use absolo_cloud_services.Runtime.Stripe.{Event}
use absolo_cloud_services.Runtime.Tables.Billing.{stripe_webhook_events}
use absolo_cloud_services.Schema.Billing.{WebhookEvent}
use absolo_cloud_services.Billing.Webhooks.{
  Receipt, dispatch_webhook_event, is_processed, logged_event, process, record_failure, attempt,
  accept, receive, error_message, handle_stripe_webhook,
}
use absolo_cloud_services.Billing.Webhooks.Idempotence.{
  is_for, is_pending, IsProcessed, IsProcessed-selected, dispatched_log, accept-IsProcessed,
  receive_again, receive_first, handle_stripe_webhook_lem,
}

module _ ⦃env : Env⦄ where
  IsProcessed-of_table :
      (id : String) (s u : State)
      → u.stripe_webhook_events ≡ s.stripe_webhook_events
      → IsProcessed id s
      → IsProcessed id u
  IsProcessed-of_table id s u same h = record {
    none_pending = ap (λ t. count (is_pending id) (env.rows t)) same ∙ h.none_pending;
    logged = omega (arith, ap (λ t. count (is_for id) (env.rows t)) same, h.logged);
  }

  -- An attempt at an event changes rows of that event only.
  attempt_log :
      (event : Event) (s : State)
      → (f : WebhookEvent → WebhookEvent) × ((attempt event s).1.stripe_webhook_events
          ≡ env.update_where (is_for event.id) f s.stripe_webhook_events)
        × ((r : WebhookEvent) → (f r).stripe_event_id ≡ r.stripe_event_id)
  unfolding attempt process record_failure
  attempt_log event s =
      let u = (dispatch_webhook_event event.notice s).1 in
      let same = dispatched_log event s in
      elim (Result-cases (dispatch_webhook_event event.notice s).0) [
        | inl (_, done) ↦
            let step = >>=-ok (dispatch_webhook_event event.notice) (λ _. stamped event) s done in
            (
              λ r. record r { processed_at = some (env.clock u.tick) },
              ap (λ o. o.1.stripe_webhook_events)
                    (catch-ok (process event) (record_failure event) s (ap (λ o. o.0) step))
                  ∙ ap (λ o. o.1.stripe_webhook_events) step
                  ∙ ap
                      (λ t.
                        env.update_where (is_for event.id)
                          (λ r. record r { processed_at = some (env.clock u.tick) }) t)
                      same,
              λ _. refl,
            )
        | inr (e, thrown) ↦
            let step =
              >>=-err (dispatch_webhook_event event.notice) (λ _. stamped event) s thrown in
            (
              λ r. record r { error = some (error_message e) },
              ap (λ o. o.1.stripe_webhook_events)
                    (catch-err (process event) (record_failure event) s (ap (λ o. o.0) step))
                  ∙ ap (λ o. (record_failure event e o.1).1.stripe_webhook_events) step
                  ∙ ap
                      (λ t.
                        env.update_where (is_for event.id)
                          (λ r. record r { error = some (error_message e) }) t)
                      same,
              λ _. refl,
            )
      ]
    where
      stamped : Event → Action (Unit {0})
      stamped event = do
        at ← now
        update stripe_webhook_events (λ r. r.stripe_event_id == event.id)
            (λ r. record r { processed_at = some at })

  -- A test that no row of the event passes, before or after a change.
  other_rows :
      (q : WebhookEvent → Bool) (event : Event) (f : WebhookEvent → WebhookEvent)
      (t : env.Table WebhookEvent)
      → ((r : WebhookEvent) → is_for event.id r ≡ true → q r ≡ false)
      → ((r : WebhookEvent) → (f r).stripe_event_id ≡ r.stripe_event_id)
      → count q (env.rows (env.update_where (is_for event.id) f t)) ≡ count q (env.rows t)
  other_rows q event f t unseen keeps =
      env.count-update_where q (is_for event.id) f t
      ∙ count_congr _ q (env.rows t) (λ r. elim (Bool-cases (is_for event.id r)) [
        | inr no_row ↦ rw no_row
        | inl row ↦
            rw row (unseen (f r) (ap (λ i. i == event.id) (keeps r) ∙ row) ∙ sym (unseen r row))
      ])

  distinct : (a b c : String) → (b == c) ≡ false → (a == b) ≡ true → (a == c) ≡ false
  distinct a b c other same = ground (arith, eq_iff a b, eq_iff b c, eq_iff a c)

  -- How many rows pass a test after an event that has none of them is accepted.
  count-accept :
      (q : WebhookEvent → Bool) (event : Event) (s : State)
      → ((r : WebhookEvent) → is_for event.id r ≡ true → q r ≡ false)
      → count q (in_table stripe_webhook_events (accept event s).1)
        ≡ count q (in_table stripe_webhook_events s)
  unfolding accept
  count-accept q event s unseen =
      let row = logged_event event (env.clock s.tick) in
      let v : State = record s { tick = s.tick + 1 } in
      let ins = insert_or_ignore stripe_webhook_events row in
      let fresh : Receipt = record { received = true; duplicate = false } in
      let rest : Action Receipt = attempt event >> pure fresh in
      let u = (ins v).1 in
      let inserted =
        insert_or_ignore_unseen stripe_webhook_events q row v (unseen row (eq_refl event.id)) in
      let (f, log, keeps) = attempt_log event u in
      elim (Result-cases (ins v).0) [
        | inr (e, thrown) ↦
            ap (λ o. count q (in_table stripe_webhook_events o.1))
              (>>=-err ins (λ _. rest) v thrown)
            ∙ inserted
        | inl (_, done) ↦
            ap (λ o. count q (in_table stripe_webhook_events o.1)) (>>=-ok ins (λ _. rest) v done)
            ∙ ap (λ w. count q (in_table stripe_webhook_events w))
                (>>-pure (attempt event) (λ _. fresh) u)
            ∙ ap (λ t. count q (env.rows t)) log
            ∙ other_rows q event f u.stripe_webhook_events unseen keeps
            ∙ inserted
      ]

  -- A delivery, of this or of another event, whatever becomes of it.
  receive-IsProcessed :
      (id : String) (event : Event) (s : State)
      → IsProcessed id s
      → IsProcessed id (receive event s).1
  receive-IsProcessed id event s h =
      elim (Bool-cases
        (is_processed (head? (filter (is_for event.id) (in_table stripe_webhook_events s))))) [
          | inl known ↦ rw (receive_again event s known) h
          | inr new ↦ rw (receive_first event s new) (elim (Bool-cases (event.id == id)) [
            | inl same ↦ cc (
              ap (λ i. is_processed (head? (filter (is_for i) (in_table stripe_webhook_events s))))
                    ((eq_iff event.id id).0 same)
                  ∙ IsProcessed-selected id s h,
              new,
            )
            | inr other ↦
                let unseen : (r : WebhookEvent) → is_for event.id r ≡ true → is_for id r ≡ false =
                  λ r row. distinct r.stripe_event_id event.id id other row in
                record {
                  none_pending =
                      count-accept (is_pending id) event s
                        (λ r row. ap (λ b. b && not (is_some r.processed_at)) (unseen r row))
                      ∙ h.none_pending;
                  logged = omega (arith, count-accept (is_for id) event s unseen, h.logged);
                }
          ])
        ]

  delivery-IsProcessed :
      (id payload signature : String) (s : State)
      → IsProcessed id s
      → IsProcessed id (handle_stripe_webhook payload signature s).1
  unfolding handle_stripe_webhook
  delivery-IsProcessed id payload signature s h =
      elim (Result-cases (env.construct_event payload signature env.stripe_webhook_secret)) [
        | inl (event, signed) ↦
            rw (handle_stripe_webhook_lem payload signature s signed)
              (receive-IsProcessed id event s h)
        | inr (e, unsigned) ↦
            rw
              (>>=-err (lift (env.construct_event payload signature env.stripe_webhook_secret))
                receive s unsigned)
              h
      ]

  -- The state after deliveries, each with its payload and signature, whatever they answer or throw.
  abbrev pub after_deliveries : List (String × String) → State → State
  after_deliveries [] s = s
  after_deliveries ((payload, signature) ∷ l) s =
      after_deliveries l (handle_stripe_webhook payload signature s).1

  deliveries-IsProcessed :
      (id : String) (l : List (String × String)) (s : State)
      → IsProcessed id s
      → IsProcessed id (after_deliveries l s)
  deliveries-IsProcessed id [] s h = h
  deliveries-IsProcessed id ((payload, signature) ∷ l) s h =
      deliveries-IsProcessed id l (handle_stripe_webhook payload signature s).1
        (delivery-IsProcessed id payload signature s h)

  one_row : (n m k : ℕ) → n ≡ m + k → n ≤ 1 → 1 ≤ m → k ≡ 0
  one_row n m k e le pos = omega (arith, e, le, pos)

  -- The event of a delivery that returned is processed.
  received-IsProcessed :
      (event : Event) (s : State) {receipt : Receipt}
      → count (is_for event.id) (in_table stripe_webhook_events s) ≤ 1
      → (receive event s).0 ≡ ok receipt
      → IsProcessed event.id (receive event s).1
  received-IsProcessed event s {receipt} keyed done =
      let l = in_table stripe_webhook_events s in
      elim (Bool-cases (is_processed (head? (filter (is_for event.id) l)))) [
        | inr new ↦ rw (receive_first event s new) (
            accept-IsProcessed event s {receipt = receipt} (rw (receive_first event s new) at done))
        | inl known ↦
            rw (receive_again event s known)
              (elim (Option-cases (head? (filter (is_for event.id) l))) [
                | inl missing ↦ cc (rw missing at known)
                | inr (r, there) ↦ record {
                  none_pending =
                      one_row _ _ _ (count_split (is_for event.id) (λ r. is_some r.processed_at) l)
                        keyed
                        (head?-filter-count (is_for event.id) (λ r. is_some r.processed_at) l
                          {r = r} there (rw there at known));
                  logged = count_pos_of_head? (is_for event.id) l there;
                }
              ])
      ]

  -- Where the log has at most one row of an event (its primary key) and a delivery of the event
  -- returned: after any further deliveries, of any events and whatever they answer or throw, every
  -- delivery of the event, also with another payload or signature, is answered as a duplicate, and
  -- nothing at all changes.
  pub handle_stripe_webhook_replay :
      (payload signature payload' signature' : String) (later : List (String × String)) (s : State)
      {event event' : Event} {receipt : Receipt}
      → env.construct_event payload signature env.stripe_webhook_secret ≡ ok event
      → count (is_for event.id) (in_table stripe_webhook_events s) ≤ 1
      → (handle_stripe_webhook payload signature s).0 ≡ ok receipt
      → env.construct_event payload' signature' env.stripe_webhook_secret ≡ ok event'
      → event'.id ≡ event.id
      → let u = after_deliveries later (handle_stripe_webhook payload signature s).1 in
        handle_stripe_webhook payload' signature' u
        ≡ (ok (record { received = true; duplicate = true }), u)
  handle_stripe_webhook_replay payload signature payload' signature' later s {event} {event'}
        {receipt} signed keyed done signed' same =
      let first = handle_stripe_webhook_lem payload signature s signed in
      let u = after_deliveries later (handle_stripe_webhook payload signature s).1 in
      let processed : IsProcessed event.id u =
        deliveries-IsProcessed event.id later (handle_stripe_webhook payload signature s).1
          (rw first (received-IsProcessed event s {receipt = receipt} keyed (rw first at done))) in
      handle_stripe_webhook_lem payload' signature' u signed'
      ∙ receive_again event' u (
          ap (λ i. is_processed (head? (filter (is_for i) (in_table stripe_webhook_events u)))) same
          ∙ IsProcessed-selected event.id u processed)
