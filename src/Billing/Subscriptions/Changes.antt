-- ===== src/Billing/Subscriptions/Changes.antt =====
-- What `cancelSubscription` of services/control-plane/src/modules/billing/billing.service.ts leaves.
use native.Mathlib.Nat.{le_trans}
use absolo_cloud_services.Base.{
  ◌+◌, ◌≤◌, String, ◌≡◌, refl, ap, ◌∙◌, ◌⊎◌, inl, inr, Bool, true, ◌&&◌, Bool-cases, Option, none,
  some, ◌==◌, eq_refl, head?, filter, count, count_mono, head?-filter-count, and_left, and_right,
  Option-cases, if◌then◌else◌, arith,
}
use absolo_cloud_services.Result.{ok, err, Error, Result-cases}
use absolo_cloud_services.Runtime.Env.{Env}
use absolo_cloud_services.Runtime.State.{State}
use absolo_cloud_services.Runtime.Action.{Action, ◌>>=◌, now, in_table, update}
use absolo_cloud_services.Runtime.Laws.{>>=-ok, >>=-err, or_throw-none, or_throw-some}
use absolo_cloud_services.Runtime.Stripe.{Call}
use absolo_cloud_services.Schema.Billing.{Subscription}
use absolo_cloud_services.Runtime.Tables.Billing.{subscriptions}
use absolo_cloud_services.Billing.Subscriptions.{
  subscription_not_found, at_stripe, cancel, cancel_subscription,
}

module _ ⦃env : Env⦄ where
  at_stripe_frame :
      (o : Option String) (call : String → Call) (s : State)
      → (at_stripe o call s).1.subscriptions ≡ s.subscriptions
  at_stripe_frame none call s = refl
  at_stripe_frame (some id) call s = elim (Bool-cases (id == "")) [
    | inl e ↦ rw e refl
    | inr e ↦ rw e refl
  ]

  -- The rows of a subscription that was found, after all rows with its id are changed.
  changed_rows :
      (q : Subscription → Bool) (f : Subscription → Subscription) (org_id : String)
      (sub : Subscription) (s : State)
      → head? (filter (λ r. r.org_id == org_id) (in_table subscriptions s)) ≡ some sub
      → ((r : Subscription) → (r.org_id == org_id) ≡ true → q (f r) ≡ true)
      → (u : State) → u.subscriptions ≡ s.subscriptions
      → 1 ≤ count q (in_table subscriptions (update subscriptions (λ r. r.id == sub.id) f u).1)
  changed_rows q f org_id sub s found sees u same =
      rw (env.count-update_where q (λ r. r.id == sub.id) f u.subscriptions, same)
        (le_trans
          (head?-filter-count (λ r. r.org_id == org_id) (λ r. r.id == sub.id)
            (in_table subscriptions s) {r = sub} found (eq_refl sub.id))
          (count_mono (λ r. r.org_id == org_id && r.id == sub.id)
            (λ r. q (if r.id == sub.id then f r else r)) (in_table subscriptions s)
            (λ r h.
              rw (and_right (r.org_id == org_id) (r.id == sub.id) h)
                (sees r (and_left (r.org_id == org_id) (r.id == sub.id) h)))))

  abbrev pub is_canceled : String → Subscription → Bool
  is_canceled org_id b = b.org_id == org_id && b.status == "canceled"

  -- The rest after Stripe.
  finish_cancel : Subscription → Action (Unit {0})
  finish_cancel sub = do
    canceled ← now
    updated ← now
    update subscriptions (λ r. r.id == sub.id)
        (λ r. record r { status = "canceled"; canceled_at = some canceled; updated_at = updated })

  -- To cancel either throws and leaves all subscriptions as they are, or returns and the
  -- organization has a canceled subscription.
  pub cancel_subscription_lem :
      (org_id : String) (s : State)
      → let (r, s') = cancel_subscription org_id s in
        ((e : Error) × (r ≡ err e) × (s'.subscriptions ≡ s.subscriptions))
        ⊎ ((r ≡ ok tt)
            × (1
                ≤ count
                    (λ b. b.org_id == org_id && b.status == "canceled")
                    (in_table subscriptions s')))
  unfolding cancel_subscription cancel finish_cancel
  cancel_subscription_lem org_id s =
      elim (Option-cases (head? (filter (λ r. r.org_id == org_id) (in_table subscriptions s)))) [
        | inl e ↦
            let same =
              or_throw-none (subscription_not_found org_id)
                (head? (filter (λ r. r.org_id == org_id) (in_table subscriptions s)))
                (λ sub. cancel sub) s e in
            inl
              (subscription_not_found org_id, ap (λ o. o.0) same, ap (λ o. o.1.subscriptions) same)
        | inr (sub, e) ↦
            let same =
              or_throw-some (subscription_not_found org_id)
                (head? (filter (λ r. r.org_id == org_id) (in_table subscriptions s)))
                (λ sub. cancel sub) s e in
            elim (Result-cases
              (at_stripe sub.stripe_subscription_id Call.cancel_at_period_end s).0) [
                | inl (_, done) ↦
                    let step =
                      same
                      ∙ >>=-ok (at_stripe sub.stripe_subscription_id Call.cancel_at_period_end)
                          (λ _. finish_cancel sub) s done in
                    let u = (at_stripe sub.stripe_subscription_id Call.cancel_at_period_end s).1 in
                    inr (
                      ap (λ o. o.0) step,
                      omega (
                        arith,
                        ap (λ o. count (is_canceled org_id) (in_table subscriptions o.1)) step,
                        changed_rows (is_canceled org_id)
                            (λ r. record r {
                              status = "canceled";
                              canceled_at = some (env.clock u.tick);
                              updated_at = env.clock (u.tick + 1);
                            })
                            org_id sub s e (λ r h. rw h refl) (record u { tick = u.tick + 1 + 1 })
                            (at_stripe_frame sub.stripe_subscription_id Call.cancel_at_period_end
                              s),
                      ),
                    )
                | inr (thrown, t) ↦
                    let step =
                      same
                      ∙ >>=-err (at_stripe sub.stripe_subscription_id Call.cancel_at_period_end)
                          (λ _. finish_cancel sub) s t in
                    inl (
                      thrown,
                      ap (λ o. o.0) step,
                      ap (λ o. o.1.subscriptions) step
                          ∙ at_stripe_frame sub.stripe_subscription_id Call.cancel_at_period_end s,
                    )
              ]
      ]
