-- ===== src/Tests/Billing.antt =====
-- The theorems of billing at sample states.
use absolo_cloud_services.Base.{
  ◌+◌, ◌≤◌, ◌≡◌, refl, ◌⊎◌, true, false, ◌&&◌, some, ◌==◌, String, List, [], ◌∷◌, count, arith,
}
use absolo_cloud_services.Result.{ok, err, Error, foreign_key_violation}
use absolo_cloud_services.Runtime.Action.{in_table, insert, insert_or_ignore}
use absolo_cloud_services.Tests.Concrete.{list_env, empty, sample_event}
use absolo_cloud_services.Tests.World.{world}
use absolo_cloud_services.Runtime.Tables.Billing.{payment_methods, subscriptions}
use absolo_cloud_services.Billing.Webhooks.{
  handle_stripe_webhook, dispatch_webhook_event, handle_invoice_payment_failed, accept,
}
use absolo_cloud_services.Billing.Webhooks.Redelivery.{
  after_deliveries, handle_stripe_webhook_replay,
}
use absolo_cloud_services.Runtime.State.{State}
use absolo_cloud_services.Runtime.Stripe.{Call}
use absolo_cloud_services.Billing.Webhooks.Failures.{handle_stripe_webhook_retry, done_rows}
use absolo_cloud_services.Billing.Dunning.{advance_dunning, clear_dunning}
use absolo_cloud_services.Billing.Dunning.Levels.{AtLevel, clear_dunning-AtLevel}
use absolo_cloud_services.Billing.Dunning.History.{failed, paid, payments, payments-AtLevel}
use absolo_cloud_services.Billing.PaymentMethods.{set_default_payment_method, add_payment_method}
use absolo_cloud_services.Billing.PaymentMethods.Updates.{IsValid, is_owned, is_default_of}
use absolo_cloud_services.Billing.PaymentMethods.Defaults.{
  missing, set_default_payment_method-IsValid, set_default_payment_method_chosen,
}
use absolo_cloud_services.Billing.PaymentMethods.Additions.{add_payment_method-IsValid}
use absolo_cloud_services.Billing.Subscriptions.{cancel_subscription}
use absolo_cloud_services.Billing.Subscriptions.Changes.{cancel_subscription_lem, is_canceled}
use absolo_cloud_services.Billing.Invoices.{get_invoice_pdf_url}
use absolo_cloud_services.Billing.Invoices.Links.{get_invoice_pdf_url_cached}
use absolo_cloud_services.Billing.Meters.{Shipment, ship_pending_meters}
use absolo_cloud_services.Billing.Meters.Totals.{ship_pending_meters_returns}

delivered :
    (handle_stripe_webhook "evt_1" "whsec" world).0
    ≡ ok (record { received = true; duplicate = false })
unfolding handle_stripe_webhook dispatch_webhook_event handle_invoice_payment_failed advance_dunning
    insert insert_or_ignore
delivered = refl

abbrev between : List (String × String)
between = ("evt_2", "whsec") ∷ ("evt_1", "forged") ∷ []

abbrev after_others : State
after_others = after_deliveries between (handle_stripe_webhook "evt_1" "whsec" world).1

handle_stripe_webhook_replay_example :
    handle_stripe_webhook "evt_1" "whsec" after_others
    ≡ (ok (record { received = true; duplicate = true }), after_others)
handle_stripe_webhook_replay_example =
    handle_stripe_webhook_replay "evt_1" "whsec" "evt_1" "whsec" between world
      {event = sample_event "evt_1"} {event' = sample_event "evt_1"}
      {receipt = record { received = true; duplicate = false }} refl (omega arith) delivered refl
      refl

-- No organization: the dunning row refers to none.
not_delivered : (handle_stripe_webhook "evt_1" "whsec" empty).0 ≡ err foreign_key_violation
unfolding handle_stripe_webhook dispatch_webhook_event handle_invoice_payment_failed advance_dunning
    insert insert_or_ignore
not_delivered = refl

handle_stripe_webhook_retry_example :
    (done_rows (sample_event "evt_1") (handle_stripe_webhook "evt_1" "whsec" empty).1 ≡ 0)
    × (handle_stripe_webhook "evt_1" "whsec" (handle_stripe_webhook "evt_1" "whsec" empty).1
        ≡ accept (sample_event "evt_1") (handle_stripe_webhook "evt_1" "whsec" empty).1)
handle_stripe_webhook_retry_example =
    handle_stripe_webhook_retry "evt_1" "whsec" empty {event = sample_event "evt_1"}
      {e = foreign_key_violation} refl refl not_delivered

AtLevel-0 : AtLevel "org_1" 0 world
AtLevel-0 = record { level_is = refl; recorded = λ p. absurd (omega (arith, p)) }

clear_dunning-AtLevel_example :
    ((clear_dunning "org_1" world).0 ≡ ok tt) × AtLevel "org_1" 0 (clear_dunning "org_1" world).1
clear_dunning-AtLevel_example = clear_dunning-AtLevel "org_1" world

payments-AtLevel_example :
    ((payments "org_1" (failed ∷ failed ∷ paid ∷ failed ∷ []) world).0 ≡ ok tt)
    × (1 ≤ 5)
    × AtLevel "org_1" 1 (payments "org_1" (failed ∷ failed ∷ paid ∷ failed ∷ []) world).1
payments-AtLevel_example =
    payments-AtLevel "org_1" 0 (failed ∷ failed ∷ paid ∷ failed ∷ []) world (omega arith) refl
      AtLevel-0

IsValid-methods : IsValid world
IsValid-methods = record { keyed = λ id. ground arith; one_default = λ o. ground arith }

set_default_payment_method-IsValid_example :
    IsValid (set_default_payment_method "org_1" "pm_1" world).1
set_default_payment_method-IsValid_example =
    set_default_payment_method-IsValid "org_1" "pm_1" world IsValid-methods

set_default_payment_method_chosen_example :
    ((count (is_owned "pm_1" "org_1") (in_table payment_methods world) ≡ 0)
      × ((set_default_payment_method "org_1" "pm_1" world).0 ≡ err (missing "pm_1"))
      × ((set_default_payment_method "org_1" "pm_1" world).1 ≡ world))
    ⊎ ((count (is_owned "pm_1" "org_1") (in_table payment_methods world) ≡ 1)
        × (count
              (is_default_of "org_1")
              (in_table payment_methods (set_default_payment_method "org_1" "pm_1" world).1)
            ≡ 1)
        × (count
              (λ r. is_default_of "org_1" r && r.id == "pm_1")
              (in_table payment_methods (set_default_payment_method "org_1" "pm_1" world).1)
            ≡ 1))
set_default_payment_method_chosen_example =
    set_default_payment_method_chosen "org_1" "pm_1" world IsValid-methods

add_payment_method-IsValid_example : IsValid (add_payment_method "org_1" "stripe_pm_2" world).1
add_payment_method-IsValid_example =
    add_payment_method-IsValid "org_1" "stripe_pm_2" world IsValid-methods

cancel_subscription_lem_example :
    ((e : Error) × ((cancel_subscription "org_1" world).0 ≡ err e)
      × ((cancel_subscription "org_1" world).1.subscriptions ≡ world.subscriptions))
    ⊎ (((cancel_subscription "org_1" world).0 ≡ ok tt)
        × (1
            ≤ count
                (is_canceled "org_1")
                (in_table subscriptions (cancel_subscription "org_1" world).1)))
cancel_subscription_lem_example = cancel_subscription_lem "org_1" world

fetched : (get_invoice_pdf_url "org_1" "inv_1" world).0 ≡ ok (some "pdf")
unfolding get_invoice_pdf_url
fetched = refl

-- Two ticks later, with a call of Stripe more.
abbrev after_fetch : State
after_fetch =
    let s = (get_invoice_pdf_url "org_1" "inv_1" world).1 in
    record s { tick = s.tick + 2; calls = Call.cancel_at_period_end "sub_1" ∷ s.calls }

get_invoice_pdf_url_cached_example :
    get_invoice_pdf_url "org_1" "inv_1" after_fetch ≡ (ok (some "pdf"), after_fetch)
get_invoice_pdf_url_cached_example =
    get_invoice_pdf_url_cached "org_1" "inv_1" world after_fetch {url = "pdf"} fetched refl

ship_pending_meters_returns_example :
    (shipment : Shipment) × ((ship_pending_meters world).0 ≡ ok shipment)
    × (shipment.shipped + shipment.failed ≤ 1000)
ship_pending_meters_returns_example = ship_pending_meters_returns world
