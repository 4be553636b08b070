-- ===== src/Billing/Webhooks/Frames.antt =====
-- What the webhook handlers of services/control-plane/src/modules/billing/billing.service.ts
-- leave alone: they write the clock, the invoices, the subscriptions and the dunning table only.
use absolo_cloud_services.Base.{
  ℕ, String, ◌≡◌, refl, ◌∙◌, Bool-cases, inl, inr, Option, none, some, ◌==◌,
}
use absolo_cloud_services.Runtime.Env.{Env}
use absolo_cloud_services.Runtime.State.{State}
use absolo_cloud_services.Runtime.Stripe.{
  StripeInvoice, StripeSubscription, Notice, invoice_paid, invoice_payment_failed,
  subscription_created, subscription_updated, subscription_deleted, payment_method_attached,
  payment_method_detached, other_type,
}
use absolo_cloud_services.Runtime.Action.{Action, pure}
use absolo_cloud_services.Runtime.Laws.{upsert_frame, >>=_frame}
use absolo_cloud_services.Runtime.Tables.Billing.{invoices}
use absolo_cloud_services.Schema.Billing.{Invoice, Subscription, Dunning}
use absolo_cloud_services.Billing.Dunning.{advance_dunning, clear_dunning}
use absolo_cloud_services.Billing.Dunning.History.{advance_dunning_frame, clear_dunning_frame}
use absolo_cloud_services.Billing.Webhooks.{
  for_org, record_paid, handle_invoice_paid, handle_invoice_payment_failed,
  handle_subscription_updated, handle_subscription_deleted, dispatch_webhook_event,
}

module _ ⦃env : Env⦄ where
  module _ {A : Type 0} (f : State → A)
      (blind : (m : ℕ) (d : env.Table Dunning) (i : env.Table Invoice) (b : env.Table Subscription)
          (u : State)
        → f (record u { tick = m; dunning_state = d; invoices = i; subscriptions = b }) ≡ f u) where
    for_org_frame :
        (o : Option String) (k : String → Action (Unit {0})) (s : State)
        → ((org_id : String) (u : State) → f (k org_id u).1 ≡ f u)
        → f (for_org o k s).1 ≡ f s
    unfolding for_org
    for_org_frame none k s h = refl
    for_org_frame (some org_id) k s h = elim (Bool-cases (org_id == "")) [
      | inl empty ↦ rw (empty, for_org)
      | inr given ↦ rw (given, for_org) (h org_id s)
    ]

    record_paid_frame :
        (org_id : String) (invoice : StripeInvoice) (s : State)
        → f (record_paid org_id invoice s).1 ≡ f s
    unfolding record_paid
    record_paid_frame org_id invoice s =
        upsert_frame invoices f _ _ _ _ (λ v u. blind u.tick u.dunning_state v u.subscriptions u)
        ∙ blind _ s.dunning_state s.invoices s.subscriptions s

    handle_invoice_paid_frame :
        (invoice : StripeInvoice) (s : State) → f (handle_invoice_paid invoice s).1 ≡ f s
    unfolding handle_invoice_paid
    handle_invoice_paid_frame invoice s = for_org_frame invoice.org_id _ s (λ org_id u.
        >>=_frame f (record_paid org_id invoice) (λ _. clear_dunning org_id) u
          (record_paid_frame org_id invoice u)
          (λ _ v. clear_dunning_frame f (λ m d w. blind m d w.invoices w.subscriptions w) org_id v))

    handle_invoice_payment_failed_frame :
        (invoice : StripeInvoice) (s : State) → f (handle_invoice_payment_failed invoice s).1 ≡ f s
    unfolding handle_invoice_payment_failed
    handle_invoice_payment_failed_frame invoice s = for_org_frame invoice.org_id _ s (λ org_id u.
        >>=_frame f (advance_dunning org_id) (λ _. pure tt) u
          (advance_dunning_frame f (λ m d w. blind m d w.invoices w.subscriptions w) org_id u)
          (λ _ _. refl))

    handle_subscription_updated_frame :
        (sub : StripeSubscription) (s : State) → f (handle_subscription_updated sub s).1 ≡ f s
    unfolding handle_subscription_updated
    handle_subscription_updated_frame sub s =
        for_org_frame sub.org_id _ s (λ _ u. blind _ u.dunning_state u.invoices _ u)

    handle_subscription_deleted_frame :
        (sub : StripeSubscription) (s : State) → f (handle_subscription_deleted sub s).1 ≡ f s
    unfolding handle_subscription_deleted
    handle_subscription_deleted_frame sub s =
        for_org_frame sub.org_id _ s (λ _ u. blind _ u.dunning_state u.invoices _ u)

    pub dispatch_webhook_event_frame :
        (notice : Notice) (s : State) → f (dispatch_webhook_event notice s).1 ≡ f s
    unfolding dispatch_webhook_event
    dispatch_webhook_event_frame (invoice_paid invoice) s = handle_invoice_paid_frame invoice s
    dispatch_webhook_event_frame (invoice_payment_failed invoice) s =
        handle_invoice_payment_failed_frame invoice s
    dispatch_webhook_event_frame (subscription_created sub) s =
        handle_subscription_updated_frame sub s
    dispatch_webhook_event_frame (subscription_updated sub) s =
        handle_subscription_updated_frame sub s
    dispatch_webhook_event_frame (subscription_deleted sub) s =
        handle_subscription_deleted_frame sub s
    dispatch_webhook_event_frame payment_method_attached s = refl
    dispatch_webhook_event_frame payment_method_detached s = refl
    dispatch_webhook_event_frame other_type s = refl
