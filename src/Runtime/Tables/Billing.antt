-- ===== src/Runtime/Tables/Billing.antt =====
-- What the billing tables of services/control-plane/src/db/schema.ts enforce.
use absolo_cloud_services.Base.{refl, true, ◌&&◌, ◌||◌, ◌==◌, nat_eq}
use absolo_cloud_services.Runtime.Env.{Env}
use absolo_cloud_services.Runtime.Action.{Relation, in_table}
use absolo_cloud_services.Schema.Billing.{
  Plan, Subscription, SubscriptionItem, PaymentMethod, Invoice, UsageEvent, UsageHourly,
  MeterShipment, TaxProfile, Dunning, Credit, WebhookEvent,
}
use absolo_cloud_services.Runtime.Tables.Checks.{found, both_some_eq}
use absolo_cloud_services.Runtime.Tables.Iam.{org_exists}

module _ ⦃env : Env⦄ where
  abbrev pub plans : Relation Plan
  plans = record {
    read = λ s. s.plans;
    write = λ v s. record s { plans = v };
    clashes = λ r r'. r.id == r'.id || r.code == r'.code;
    refers = λ _ _. true;
    read-write = λ _ _. refl;
  }

  abbrev pub subscriptions : Relation Subscription
  subscriptions = record {
    read = λ s. s.subscriptions;
    write = λ v s. record s { subscriptions = v };
    clashes = λ r r'. r.id == r'.id || r.org_id == r'.org_id;
    refers = λ s r. org_exists s r.org_id && found (λ p. p.id == r.plan_id) (in_table plans s);
    read-write = λ _ _. refl;
  }

  abbrev pub subscription_items : Relation SubscriptionItem
  subscription_items = record {
    read = λ s. s.subscription_items;
    write = λ v s. record s { subscription_items = v };
    clashes = λ r r'. r.id == r'.id;
    refers = λ s r. found (λ b. b.id == r.subscription_id) (in_table subscriptions s);
    read-write = λ _ _. refl;
  }

  abbrev pub payment_methods : Relation PaymentMethod
  payment_methods = record {
    read = λ s. s.payment_methods;
    write = λ v s. record s { payment_methods = v };
    clashes = λ r r'. r.id == r'.id;
    refers = λ s r. org_exists s r.org_id;
    read-write = λ _ _. refl;
  }

  abbrev pub invoices : Relation Invoice
  invoices = record {
    read = λ s. s.invoices;
    write = λ v s. record s { invoices = v };
    clashes = λ r r'. r.id == r'.id || both_some_eq r.stripe_invoice_id r'.stripe_invoice_id;
    refers = λ s r. org_exists s r.org_id;
    read-write = λ _ _. refl;
  }

  abbrev pub usage_events : Relation UsageEvent
  usage_events = record {
    read = λ s. s.usage_events;
    write = λ v s. record s { usage_events = v };
    clashes = λ r r'. r.id == r'.id;
    refers = λ s r. org_exists s r.org_id;
    read-write = λ _ _. refl;
  }

  abbrev pub usage_hourly : Relation UsageHourly
  usage_hourly = record {
    read = λ s. s.usage_hourly;
    write = λ v s. record s { usage_hourly = v };
    clashes = λ r r'.
        r.org_id == r'.org_id
        && r.resource_id == r'.resource_id
        && r.kind == r'.kind
        && nat_eq r.hour r'.hour;
    refers = λ s r. org_exists s r.org_id;
    read-write = λ _ _. refl;
  }

  abbrev pub meter_shipments : Relation MeterShipment
  meter_shipments = record {
    read = λ s. s.meter_shipments;
    write = λ v s. record s { meter_shipments = v };
    clashes = λ r r'.
        r.id == r'.id || (nat_eq r.hour r'.hour && r.kind == r'.kind && r.batch_id == r'.batch_id);
    refers = λ _ _. true;
    read-write = λ _ _. refl;
  }

  abbrev pub tax_profiles : Relation TaxProfile
  tax_profiles = record {
    read = λ s. s.tax_profiles;
    write = λ v s. record s { tax_profiles = v };
    clashes = λ r r'. r.org_id == r'.org_id;
    refers = λ s r. org_exists s r.org_id;
    read-write = λ _ _. refl;
  }

  abbrev pub dunning_state : Relation Dunning
  dunning_state = record {
    read = λ s. s.dunning_state;
    write = λ v s. record s { dunning_state = v };
    clashes = λ r r'. r.org_id == r'.org_id;
    refers = λ s r. org_exists s r.org_id;
    read-write = λ _ _. refl;
  }

  abbrev pub credits : Relation Credit
  credits = record {
    read = λ s. s.credits;
    write = λ v s. record s { credits = v };
    clashes = λ r r'. r.id == r'.id;
    refers = λ s r. org_exists s r.org_id;
    read-write = λ _ _. refl;
  }

  abbrev pub stripe_webhook_events : Relation WebhookEvent
  stripe_webhook_events = record {
    read = λ s. s.stripe_webhook_events;
    write = λ v s. record s { stripe_webhook_events = v };
    clashes = λ r r'. r.stripe_event_id == r'.stripe_event_id;
    refers = λ _ _. true;
    read-write = λ _ _. refl;
  }
