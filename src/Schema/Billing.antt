-- ===== src/Schema/Billing.antt =====
-- The rows of the `billing` tables of services/control-plane/src/db/schema.ts.
use absolo_cloud_services.Base.{ℕ, String, Bool, Option}
use absolo_cloud_services.Schema.Json.{Json}

pub record Plan : Type 0 where
  pub id : String
  pub code : String
  pub name : String
  pub monthly_anchor_cents : ℕ
  pub included_units : Json
  pub display_order : ℕ
  pub archived_at : Option ℕ
  pub created_at : ℕ
  pub updated_at : ℕ

pub record Subscription : Type 0 where
  pub id : String
  pub org_id : String
  pub plan_id : String
  pub stripe_subscription_id : Option String
  pub status : String
  pub current_period_start : Option ℕ
  pub current_period_end : Option ℕ
  pub canceled_at : Option ℕ
  pub created_at : ℕ
  pub updated_at : ℕ

pub record SubscriptionItem : Type 0 where
  pub id : String
  pub subscription_id : String
  pub kind : String
  pub stripe_price_id : Option String
  pub stripe_meter_id : Option String
  pub stripe_subscription_item_id : Option String
  pub created_at : ℕ

pub record PaymentMethod : Type 0 where
  pub id : String
  pub org_id : String
  pub stripe_pm_id : String
  pub brand : Option String
  pub last4 : Option String
  pub exp_month : Option ℕ
  pub exp_year : Option ℕ
  pub is_default : Bool
  pub created_at : ℕ

pub record Invoice : Type 0 where
  pub id : String
  pub org_id : String
  pub stripe_invoice_id : Option String
  pub number : Option String
  pub status : String
  pub total_cents : ℕ
  pub tax_cents : ℕ
  pub currency : String
  pub period_start : Option ℕ
  pub period_end : Option ℕ
  pub pdf_url : Option String
  pub paid_at : Option ℕ
  pub created_at : ℕ

pub record UsageEvent : Type 0 where
  pub id : String
  pub org_id : String
  pub resource_id : String
  pub kind : String
  pub qty : ℕ
  pub unit : String
  pub occurred_at : ℕ
  pub ingested_at : ℕ

pub record UsageHourly : Type 0 where
  pub org_id : String
  pub resource_id : String
  pub kind : String
  pub hour : ℕ
  pub qty : ℕ

pub record MeterShipment : Type 0 where
  pub id : String
  pub hour : ℕ
  pub kind : String
  pub batch_id : String
  pub sent_at : Option ℕ
  pub stripe_event_count : ℕ
  pub status : String
  pub error_message : Option String
  pub created_at : ℕ

pub record TaxProfile : Type 0 where
  pub org_id : String
  pub country : String
  pub vat_id : Option String
  pub validated_at : Option ℕ
  pub exempt : Bool
  pub updated_at : ℕ

pub record Dunning : Type 0 where
  pub org_id : String
  pub level : ℕ
  pub last_attempt_at : Option ℕ
  pub next_attempt_at : Option ℕ
  pub resolved_at : Option ℕ
  pub updated_at : ℕ

pub record Credit : Type 0 where
  pub id : String
  pub org_id : String
  pub kind : String
  pub amount_cents : ℕ
  pub remaining_cents : ℕ
  pub expires_at : Option ℕ
  pub applied_to_invoice_id : Option String
  pub created_at : ℕ

pub record WebhookEvent : Type 0 where
  pub stripe_event_id : String
  pub event_type : String
  pub payload : Json
  pub processed_at : Option ℕ
  pub error : Option String
  pub created_at : ℕ
