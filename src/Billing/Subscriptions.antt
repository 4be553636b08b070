-- ===== src/Billing/Subscriptions.antt =====
-- Subscriptions: `getSubscription`, `createSubscription`, `changePlan` and `cancelSubscription`
-- of services/control-plane/src/modules/billing/billing.service.ts.
pub mod Changes
use absolo_cloud_services.Base.{
  ℕ, ◌*◌, String, ◌⧺◌, not, Option, none, some, or_default, ◌==◌, ltb, if◌then◌else◌,
}
use absolo_cloud_services.Result.{ok, Error, not_found}
use absolo_cloud_services.Runtime.Env.{Env}
use absolo_cloud_services.Runtime.Action.{
  Action, pure, ◌>>=◌, ◌>>◌, when, or_throw, send, now, new_id, select_first, insert, update,
}
use absolo_cloud_services.Runtime.Stripe.{Call, StripeSubscription}
use absolo_cloud_services.Runtime.Tables.Billing.{plans, subscriptions}
use absolo_cloud_services.Schema.Billing.{Plan, Subscription}
use absolo_cloud_services.Billing.Customers.{get_or_create_stripe_customer}

pub record SubscriptionView : Type 0 where
  pub subscription : Subscription
  pub plan : Option Plan

pub record CreatedSubscription : Type 0 where
  pub id : String
  pub stripe_subscription_id : String

pub record ChangedPlan : Type 0 where
  pub subscription_id : String
  pub plan_id : String

abbrev pub plan_not_found : String → Error
plan_not_found code = not_found ("Plan " ⧺ code ⧺ " not found")

abbrev pub subscription_not_found : String → Error
subscription_not_found org_id = not_found ("No subscription found for org " ⧺ org_id)

-- `new Date((seconds ?? 0) * 1000)`
abbrev pub of_seconds : Option ℕ → Option ℕ
of_seconds seconds = some (or_default seconds 0 * 1000)

abbrev pub subscription_row : String → String → Plan → StripeSubscription → ℕ → Subscription
subscription_row id org_id plan stripe_sub at = record {
  id = id;
  org_id = org_id;
  plan_id = plan.id;
  stripe_subscription_id = some stripe_sub.id;
  status = stripe_sub.status;
  current_period_start = of_seconds stripe_sub.current_period_start;
  current_period_end = of_seconds stripe_sub.current_period_end;
  canceled_at = none;
  created_at = at;
  updated_at = at;
}

-- The price of the anchor fee, if there is one.
abbrev pub anchor_item : Plan → Option ℕ
anchor_item plan = if ltb 0 plan.monthly_anchor_cents then some plan.monthly_anchor_cents else none

module _ ⦃env : Env⦄ where
  abbrev pub subscription_of : String → Action (Option Subscription)
  subscription_of org_id = select_first subscriptions (λ r. r.org_id == org_id)

  unfoldable pub with_plan : Option Subscription → Action (Option SubscriptionView)
  with_plan none s = (ok none, s)
  with_plan (some sub) s =
      (do
        plan ← select_first plans (λ r. r.id == sub.plan_id)
        pure (some (record { subscription = sub; plan = plan })))
        s

  unfoldable pub get_subscription : String → Action (Option SubscriptionView)
  unfolding with_plan
  get_subscription org_id = do sub ← subscription_of org_id; with_plan sub

  pub subscribe : String → Plan → Action CreatedSubscription
  subscribe org_id plan = do
    customer ← get_or_create_stripe_customer org_id
    stripe_sub ←
        send (Call.create_subscription customer.id (anchor_item plan) org_id plan.id)
          env.subscriptions_create
    id ← new_id "sub"
    at ← now
    insert subscriptions (subscription_row id org_id plan stripe_sub at)
    pure (record { id = id; stripe_subscription_id = stripe_sub.id })

  unfoldable pub create_subscription : String → String → Action CreatedSubscription
  unfolding subscribe
  create_subscription org_id plan_code = do
    found ← select_first plans (λ r. r.code == plan_code)
    plan ← or_throw (plan_not_found plan_code) found
    subscribe org_id plan

  -- `if (sub.stripeSubscriptionId)`: the empty text is falsy.
  abbrev pub at_stripe : Option String → (String → Call) → Action (Unit {0})
  at_stripe none call s = (ok tt, s)
  at_stripe (some id) call s = when (not (id == "")) (send (call id) env.subscriptions_update) s

  pub move_to_plan : Subscription → Plan → Action ChangedPlan
  move_to_plan sub plan = do
    at_stripe sub.stripe_subscription_id (λ id. Call.update_subscription_plan id plan.id)
    at ← now
    update subscriptions (λ r. r.id == sub.id)
        (λ r. record r { plan_id = plan.id; updated_at = at })
    pure (record { subscription_id = sub.id; plan_id = plan.id })

  pub change_plan_of : String → Subscription → Action ChangedPlan
  unfolding move_to_plan
  change_plan_of new_plan_code sub = do
    found ← select_first plans (λ r. r.code == new_plan_code)
    plan ← or_throw (plan_not_found new_plan_code) found
    move_to_plan sub plan

  unfoldable pub change_plan : String → String → Action ChangedPlan
  unfolding change_plan_of
  change_plan org_id new_plan_code = do
    found ← subscription_of org_id
    sub ← or_throw (subscription_not_found org_id) found
    change_plan_of new_plan_code sub

  pub cancel : Subscription → Action (Unit {0})
  cancel sub = do
    at_stripe sub.stripe_subscription_id Call.cancel_at_period_end
    canceled ← now
    updated ← now
    update subscriptions (λ r. r.id == sub.id)
        (λ r. record r { status = "canceled"; canceled_at = some canceled; updated_at = updated })

  unfoldable pub cancel_subscription : String → Action (Unit {0})
  unfolding cancel
  cancel_subscription org_id = do
    found ← subscription_of org_id
    sub ← or_throw (subscription_not_found org_id) found
    cancel sub
