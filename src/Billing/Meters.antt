-- ===== src/Billing/Meters.antt =====
-- The hourly shipment of usage to Stripe:
-- services/control-plane/src/modules/billing/billing-meter.service.ts, with the clock in UTC.
pub mod Totals
use absolo_cloud_services.Base.{
  ℕ, ◌+◌, ◌/◌, String, ◌⧺◌, ◌&&◌, Option, none, some, or_default, ◌==◌, leb, List, [], ◌∷◌,
}
use absolo_cloud_services.Result.{
  ok, Error, not_found, conflict, unauthorized, forbidden, bad_request, unique_violation,
  foreign_key_violation, failure,
}
use absolo_cloud_services.Runtime.Env.{Env}
use absolo_cloud_services.Runtime.Action.{
  Action, pure, ◌>>=◌, ◌>>◌, catch, send, now, new_id, select, select_first, insert_or_ignore,
}
use absolo_cloud_services.Texts.{first_chars}
use absolo_cloud_services.Dates.{start_of_hour, to_iso_string}
use absolo_cloud_services.Runtime.Stripe.{Call}
use absolo_cloud_services.Runtime.Tables.Billing.{
  subscriptions, subscription_items, usage_hourly, meter_shipments,
}
use absolo_cloud_services.Schema.Billing.{
  Subscription, SubscriptionItem, UsageHourly, MeterShipment,
}
use absolo_cloud_services.Billing.Webhooks.{error_message}
use absolo_cloud_services.Billing.Invoices.{take, truthy}

-- What the loop does with a row: `continue`, or count it as shipped.
pub data Outcome : Type 0 where
  skipped shipped : Outcome

pub record Shipment : Type 0 where
  pub shipped : ℕ
  pub failed : ℕ
  pub batch_id : Option String

abbrev pub shipment_row :
    String → UsageHourly → String → Option ℕ → ℕ → String → Option String → ℕ → MeterShipment
shipment_row id row batch_id sent_at events status message at = record {
  id = id;
  hour = row.hour;
  kind = row.kind;
  batch_id = batch_id;
  sent_at = sent_at;
  stripe_event_count = events;
  status = status;
  error_message = message;
  created_at = at;
}

module _ ⦃env : Env⦄ where
  unfoldable pub compute_identifier : UsageHourly → String → String
  unfolding first_chars to_iso_string
  compute_identifier row batch_id = first_chars 32 (
      env.sha256_hex (
        row.org_id
        ⧺ ":"
        ⧺ row.resource_id
        ⧺ ":"
        ⧺ row.kind
        ⧺ ":"
        ⧺ to_iso_string row.hour
        ⧺ ":"
        ⧺ batch_id))

  pub send_row : UsageHourly → String → Subscription → Action Outcome
  unfolding compute_identifier
  send_row row batch_id sub = do
    send
        (Call.create_meter_event row.kind (or_default sub.stripe_subscription_id "") row.qty
          (compute_identifier row batch_id) (row.hour / 1000))
        env.meter_events_create
    id ← new_id "msh"
    sent ← now
    at ← now
    insert_or_ignore meter_shipments (shipment_row id row batch_id (some sent) 1 "sent" none at)
    pure Outcome.shipped

  pub ship_metered : UsageHourly → String → Subscription → Option String → Action Outcome
  unfolding send_row
  ship_metered row batch_id sub none s = (ok Outcome.skipped, s)
  ship_metered row batch_id sub (some meter) s = send_row row batch_id sub s

  -- `subItem?.stripeMeterId`
  abbrev pub meter_of : Option SubscriptionItem → Option String
  meter_of none = none
  meter_of (some item) = truthy item.stripe_meter_id

  pub ship_subscribed : UsageHourly → String → Option Subscription → Action Outcome
  unfolding ship_metered
  ship_subscribed row batch_id none s = (ok Outcome.skipped, s)
  ship_subscribed row batch_id (some sub) s =
      (do
        item ←
            select_first subscription_items (λ r. r.subscription_id == sub.id && r.kind == row.kind)
        ship_metered row batch_id sub (meter_of item))
        s

  -- The body of the `try`.
  unfoldable pub ship_row : UsageHourly → String → Action Outcome
  unfolding ship_subscribed
  ship_row row batch_id = do
    sub ← select_first subscriptions (λ r. r.org_id == row.org_id)
    ship_subscribed row batch_id sub

  pub record_failure : UsageHourly → String → Error → Action (Unit {0})
  record_failure row batch_id e = do
    id ← new_id "msh"
    at ← now
    insert_or_ignore meter_shipments
        (shipment_row id row batch_id none 0 "failed" (some (error_message e)) at)

  -- One round of the loop, and the counts after it.
  pub count_outcome : Outcome → ℕ × ℕ → ℕ × ℕ
  count_outcome Outcome.skipped (sent, failed) = (sent, failed)
  count_outcome Outcome.shipped (sent, failed) = (sent + 1, failed)

  unfoldable pub ship_one : UsageHourly → String → ℕ × ℕ → Action (ℕ × ℕ)
  unfolding ship_row record_failure count_outcome
  ship_one row batch_id counts =
      catch (do outcome ← ship_row row batch_id; pure (count_outcome outcome counts))
        (λ e. do record_failure row batch_id e; pure (counts.0, counts.1 + 1))

  unfoldable pub ship_rows : List UsageHourly → String → ℕ × ℕ → Action (ℕ × ℕ)
  unfolding ship_one
  ship_rows [] batch_id counts s = (ok counts, s)
  ship_rows (row ∷ rows) batch_id counts s =
      (ship_one row batch_id counts >>= λ more. ship_rows rows batch_id more) s

  pub ship_batch : List UsageHourly → Action Shipment
  unfolding ship_rows
  ship_batch [] s = (ok (record { shipped = 0; failed = 0; batch_id = none }), s)
  ship_batch (row ∷ rows) s =
      (do
        batch_id ← new_id "bat"
        counts ← ship_rows (row ∷ rows) batch_id (0, 0)
        pure (record { shipped = counts.0; failed = counts.1; batch_id = some batch_id }))
        s

  unfoldable pub ship_pending_meters : Action Shipment
  unfolding ship_batch take
  ship_pending_meters = do
    at ← now
    unshipped ← select usage_hourly (λ r. leb r.hour (start_of_hour at))
    ship_batch (take 1000 unshipped)
