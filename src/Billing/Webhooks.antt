-- ===== src/Billing/Webhooks.antt =====
-- Stripe's webhooks: `handleStripeWebhook`, the dispatch and the four handlers of
-- services/control-plane/src/modules/billing/billing.service.ts.
pub mod Frames
pub mod Idempotence
pub mod Redelivery
pub mod Failures
use absolo_cloud_services.Base.{
  ℕ, zero, suc, ◌*◌, String, Bool, true, false, Option, none, some, or_default, ◌==◌, some_eq,
  is_some,
}
use mathlib.Core.Option
use absolo_cloud_services.Result.{
  Error, failure, not_found, conflict, unauthorized, forbidden, bad_request, unique_violation,
  foreign_key_violation,
}
use absolo_cloud_services.Runtime.Env.{Env}
use absolo_cloud_services.Runtime.Stripe.{
  StripeInvoice, StripeSubscription, Event, Notice, invoice_paid, invoice_payment_failed,
  subscription_created, subscription_updated, subscription_deleted, payment_method_attached,
  payment_method_detached, other_type,
}
use absolo_cloud_services.Runtime.Action.{
  Action, pure, throw, ◌>>=◌, ◌>>◌, now, new_id, lift, catch, select_first, insert_or_ignore,
  upsert, update,
}
use absolo_cloud_services.Runtime.Tables.Billing.{invoices, subscriptions, stripe_webhook_events}
use absolo_cloud_services.Runtime.Tables.Checks.{both_some_eq}
use absolo_cloud_services.Schema.Billing.{Invoice, Subscription, WebhookEvent}
use absolo_cloud_services.Billing.Dunning.{advance_dunning, clear_dunning}

-- `{ received: true, duplicate? }`
pub record Receipt : Type 0 where
  pub received : Bool
  pub duplicate : Bool

-- `x ? new Date(x * 1000) : null`: zero is falsy.
abbrev pub date_or_null : Option ℕ → Option ℕ
date_or_null none = none
date_or_null (some zero) = none
date_or_null (some (suc n)) = some (suc n * 1000)

-- `new Date((x ?? 0) * 1000)`
abbrev pub date_or_epoch : Option ℕ → ℕ
date_or_epoch x = or_default x 0 * 1000

abbrev pub marked_paid : StripeInvoice → ℕ → Invoice → Invoice
marked_paid invoice at r = record r {
  status = "paid";
  total_cents = or_default invoice.total 0;
  tax_cents = or_default invoice.tax 0;
  pdf_url = invoice.invoice_pdf;
  paid_at = some at;
}

abbrev pub paid_invoice : StripeInvoice → String → String → ℕ → ℕ → Invoice
paid_invoice invoice org_id id at created = record {
  id = id;
  org_id = org_id;
  stripe_invoice_id = some invoice.id;
  number = invoice.number;
  status = "paid";
  total_cents = or_default invoice.total 0;
  tax_cents = or_default invoice.tax 0;
  currency = or_default invoice.currency "usd";
  period_start = date_or_null invoice.period_start;
  period_end = date_or_null invoice.period_end;
  pdf_url = invoice.invoice_pdf;
  paid_at = some at;
  created_at = created;
}

module _ ⦃env : Env⦄ where
  -- The message of what was thrown, `err.message`.
  abbrev pub error_message : Error → String
  error_message (not_found m) = m
  error_message (conflict m) = m
  error_message (unauthorized m) = m
  error_message (forbidden m) = m
  error_message (bad_request m) = m
  error_message unique_violation = env.unique_violation_message
  error_message foreign_key_violation = env.foreign_key_violation_message
  error_message (failure m) = m

  record_paid : String → StripeInvoice → Action (Unit {0})
  record_paid org_id invoice = do
    id ← new_id "inv"
    paid ← now
    marked ← now
    created ← now
    upsert invoices (λ r r'. both_some_eq r.stripe_invoice_id r'.stripe_invoice_id)
        (paid_invoice invoice org_id id paid created) (marked_paid invoice marked)

  -- `if (!orgId) return`: the empty text is falsy too.
  for_org : Option String → (String → Action (Unit {0})) → Action (Unit {0})
  for_org none k s = pure tt s
  for_org (some org_id) k s = elim (org_id == "") [ true ↦ pure tt s | false ↦ k org_id s ]

  unfoldable pub handle_invoice_paid : StripeInvoice → Action (Unit {0})
  unfolding for_org record_paid
  handle_invoice_paid invoice =
      for_org invoice.org_id λ org_id. do record_paid org_id invoice; clear_dunning org_id

  unfoldable pub handle_invoice_payment_failed : StripeInvoice → Action (Unit {0})
  unfolding for_org
  handle_invoice_payment_failed invoice =
      for_org invoice.org_id λ org_id. do advance_dunning org_id; pure tt

  pub handle_subscription_updated : StripeSubscription → Action (Unit {0})
  unfolding for_org
  handle_subscription_updated subscription = for_org subscription.org_id λ org_id. do
    at ← now
    update subscriptions (λ r. some_eq r.stripe_subscription_id subscription.id)
        (λ r. record r {
          status = subscription.status;
          current_period_start = some (date_or_epoch subscription.current_period_start);
          current_period_end = some (date_or_epoch subscription.current_period_end);
          updated_at = at;
        })

  pub handle_subscription_deleted : StripeSubscription → Action (Unit {0})
  unfolding for_org
  handle_subscription_deleted subscription = for_org subscription.org_id λ org_id. do
    canceled ← now
    updated ← now
    update subscriptions (λ r. some_eq r.stripe_subscription_id subscription.id)
        (λ r. record r { status = "canceled"; canceled_at = some canceled; updated_at = updated })

  unfoldable pub dispatch_webhook_event : Notice → Action (Unit {0})
  dispatch_webhook_event (invoice_paid invoice) = handle_invoice_paid invoice
  dispatch_webhook_event (invoice_payment_failed invoice) = handle_invoice_payment_failed invoice
  dispatch_webhook_event (subscription_created sub) = handle_subscription_updated sub
  dispatch_webhook_event (subscription_updated sub) = handle_subscription_updated sub
  dispatch_webhook_event (subscription_deleted sub) = handle_subscription_deleted sub
  dispatch_webhook_event payment_method_attached = pure tt
  dispatch_webhook_event payment_method_detached = pure tt
  dispatch_webhook_event other_type = pure tt

  -- `existing?.processedAt`
  abbrev pub is_processed : Option WebhookEvent → Bool
  is_processed none = false
  is_processed (some row) = is_some row.processed_at

  abbrev pub logged_event : Event → ℕ → WebhookEvent
  logged_event event created = record {
    stripe_event_id = event.id;
    event_type = event.event_type;
    payload = event.payload;
    processed_at = none;
    error = none;
    created_at = created;
  }

  -- The body of the `try`.
  process : Event → Action (Unit {0})
  process event = do
    dispatch_webhook_event event.notice
    at ← now
    update stripe_webhook_events (λ r. r.stripe_event_id == event.id)
        (λ r. record r { processed_at = some at })

  -- The `catch`: the error is kept in the log, and thrown again.
  record_failure : Event → Error → Action (Unit {0})
  record_failure event e = do
    update stripe_webhook_events (λ r. r.stripe_event_id == event.id)
        (λ r. record r { error = some (error_message e) })
    throw e

  attempt : Event → Action (Unit {0})
  unfolding process record_failure
  attempt event = catch (process event) (record_failure event)

  -- An event that has not been processed.
  pub accept : Event → Action Receipt
  unfolding attempt
  accept event = do
    created ← now
    insert_or_ignore stripe_webhook_events (logged_event event created)
    attempt event
    pure (record { received = true; duplicate = false })

  -- `if (existing?.processedAt)`
  answer : Bool → Event → Action Receipt
  unfolding accept
  answer true event = pure (record { received = true; duplicate = true })
  answer false event = accept event

  -- After the signature has been checked.
  pub receive : Event → Action Receipt
  unfolding answer
  receive event = do
    existing ← select_first stripe_webhook_events (λ r. r.stripe_event_id == event.id)
    answer (is_processed existing) event

  unfoldable pub handle_stripe_webhook : String → String → Action Receipt
  unfolding receive
  handle_stripe_webhook payload signature = do
    event ← lift (env.construct_event payload signature env.stripe_webhook_secret)
    receive event
