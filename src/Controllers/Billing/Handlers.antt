-- ===== src/Controllers/Billing/Handlers.antt =====
-- The handlers of services/control-plane/src/modules/billing/billing.controller.ts. A body is a value
-- of its declared type, since nothing validates it; `new Date(text)` is an argument.
use absolo_cloud_services.Base.{
  ℕ, String, Bool, true, Option, none, some, or_default, ◌==◌, List, if◌then◌else◌,
}
use absolo_cloud_services.Result.{ok, err, bad_request}
use absolo_cloud_services.Runtime.Env.{Env}
use absolo_cloud_services.Runtime.State.{State}
use absolo_cloud_services.Runtime.Action.{Action, pure, ◌>>=◌, now}
use absolo_cloud_services.Schema.Billing.{PaymentMethod, Invoice}
use absolo_cloud_services.Billing.Webhooks.{Receipt, handle_stripe_webhook}
use absolo_cloud_services.Billing.Subscriptions.{
  SubscriptionView, CreatedSubscription, ChangedPlan, get_subscription, change_plan,
  create_subscription,
}
use absolo_cloud_services.Billing.Spend.{
  UsageTotal, Spend, SpendCapStatus, get_usage_summary, get_current_period_spend, check_spend_cap,
}
use absolo_cloud_services.Billing.Invoices.{list_invoices, get_invoice_pdf_url, set_spend_cap}
use absolo_cloud_services.Billing.PaymentMethods.{
  list_payment_methods, add_payment_method, set_default_payment_method,
}
use absolo_cloud_services.Billing.Customers.{upsert_tax_profile, create_portal_session}
use absolo_cloud_services.Controllers.Pipes.{Reply, handled}

-- `{ data, period }`
pub record UsagePeriod : Type 0 where
  pub items : List UsageTotal
  pub from : ℕ
  pub to : ℕ

-- `from ? new Date(from) : …`, if it is taken
abbrev pub given_date : (String → ℕ) → Option String → Option ℕ
given_date parse none = none
given_date parse (some t) = if t == "" then none else some (parse t)

-- `sub?.currentPeriodStart`
abbrev pub period_start : Option SubscriptionView → Option ℕ
period_start none = none
period_start (some sub) = sub.subscription.current_period_start

-- `a ?? b`
abbrev pub first_given : Option ℕ → Option ℕ → Option ℕ
first_given none b = b
first_given (some a) b = some a

-- `!signature`, `!payload`
abbrev pub is_missing : Option String → Bool
is_missing none = true
is_missing (some t) = t == ""

module _ ⦃env : Env⦄ where
  -- A buffer is truthy also if it is empty.
  webhook_of : Option String → String → Action Receipt
  unfolding handle_stripe_webhook
  webhook_of none signature s =
      (err (bad_request "Missing raw body — ensure rawBody is enabled"), s)
  webhook_of (some payload) signature s = handle_stripe_webhook payload signature s

  unfoldable pub handle_webhook : Option String → Option String → State → Reply Receipt × State
  unfolding webhook_of
  handle_webhook payload signature = handled (λ s.
      if is_missing signature
      then (err (bad_request "Missing stripe-signature header"), s)
      else webhook_of payload (or_default signature "") s)

  unfoldable pub handle_get_subscription : String → State → Reply (Option SubscriptionView) × State
  unfolding get_subscription
  handle_get_subscription org_id = handled (get_subscription org_id)

  unfoldable pub handle_change_plan : String → String → State → Reply ChangedPlan × State
  unfolding change_plan
  handle_change_plan org_id plan_code = handled (change_plan org_id plan_code)

  unfoldable pub handle_create_subscription :
      String → String → State → Reply CreatedSubscription × State
  unfolding create_subscription
  handle_create_subscription org_id plan_code = handled (create_subscription org_id plan_code)

  -- A date that is missing is the present.
  date_or_now : Option ℕ → Action ℕ
  date_or_now none s = now s
  date_or_now (some at) s = (ok at, s)

  unfoldable pub handle_get_usage :
      (String → ℕ) → String → (from to : Option String) → State → Reply UsagePeriod × State
  unfolding get_subscription date_or_now
  handle_get_usage parse org_id from to = handled (do
    sub ← get_subscription org_id
    from_date ← date_or_now (first_given (given_date parse from) (period_start sub))
    to_date ← date_or_now (given_date parse to)
    summary ← get_usage_summary org_id from_date to_date
    pure (record { items = summary; from = from_date; to = to_date }))

  unfoldable pub handle_get_current_spend : String → State → Reply Spend × State
  unfolding get_current_period_spend
  handle_get_current_spend org_id = handled (get_current_period_spend org_id)

  -- The service's default for the limit is 20.
  unfoldable pub handle_list_invoices : String → State → Reply (List Invoice) × State
  unfolding list_invoices
  handle_list_invoices org_id = handled (list_invoices org_id 20)

  unfoldable pub handle_get_invoice_pdf : String → String → State → Reply (Option String) × State
  unfolding get_invoice_pdf_url
  handle_get_invoice_pdf org_id invoice_id = handled (get_invoice_pdf_url org_id invoice_id)

  unfoldable pub handle_list_payment_methods : String → State → Reply (List PaymentMethod) × State
  handle_list_payment_methods org_id = handled (list_payment_methods org_id)

  unfoldable pub handle_add_payment_method : String → String → State → Reply PaymentMethod × State
  handle_add_payment_method org_id stripe_payment_method_id =
      handled (add_payment_method org_id stripe_payment_method_id)

  unfoldable pub handle_set_default_payment_method :
      String → String → State → Reply (Unit {0}) × State
  handle_set_default_payment_method org_id pm_id = handled (set_default_payment_method org_id pm_id)

  unfoldable pub handle_update_tax_profile :
      String → String → Option String → State → Reply (Unit {0}) × State
  handle_update_tax_profile org_id country vat_id =
      handled (upsert_tax_profile org_id country vat_id)

  unfoldable pub handle_set_spend_cap : String → ℕ → State → Reply (Unit {0}) × State
  unfolding set_spend_cap
  handle_set_spend_cap org_id limit_cents = handled (set_spend_cap org_id limit_cents)

  unfoldable pub handle_get_spend_cap : String → State → Reply SpendCapStatus × State
  unfolding check_spend_cap
  handle_get_spend_cap org_id = handled (check_spend_cap org_id)

  unfoldable pub handle_create_portal_session : String → String → State → Reply String × State
  handle_create_portal_session org_id return_url = handled (create_portal_session org_id return_url)
