-- ===== src/Runtime/Stripe.antt =====
-- What the control plane sends to the `stripe` package and what it reads of the answers. The
-- answers are parameters of the model (Runtime/Env); the calls are recorded in the state.
use absolo_cloud_services.Base.{ℕ, String, Option}
use absolo_cloud_services.Runtime.Cluster.{AppDeployment, AppService}
use absolo_cloud_services.Schema.Json.{Json}

pub record Customer : Type 0 where
  pub id : String

pub record StripeSubscription : Type 0 where
  pub id : String
  pub status : String
  pub current_period_start : Option ℕ
  pub current_period_end : Option ℕ
  -- `metadata.absolo_org_id`
  pub org_id : Option String

pub record Card : Type 0 where
  pub brand : String
  pub last4 : String
  pub exp_month : ℕ
  pub exp_year : ℕ

pub record StripePaymentMethod : Type 0 where
  pub id : String
  pub card : Option Card

pub record StripeInvoice : Type 0 where
  pub id : String
  pub number : Option String
  pub total : Option ℕ
  pub tax : Option ℕ
  pub currency : Option String
  pub period_start : Option ℕ
  pub period_end : Option ℕ
  pub invoice_pdf : Option String
  -- `metadata.absolo_org_id`
  pub org_id : Option String

-- `event.type` with the object of `event.data`, for the types that the dispatch knows.
pub data Notice : Type 0 where
  invoice_paid invoice_payment_failed : StripeInvoice → Notice
  subscription_created subscription_updated subscription_deleted : StripeSubscription → Notice
  payment_method_attached payment_method_detached : Notice
  other_type : Notice

pub record Event : Type 0 where
  pub id : String
  pub event_type : String
  pub payload : Json
  pub notice : Notice

-- The calls that change something at Stripe, and those of the orchestrator that change something at
-- the cluster, in the key-value store of the routes or on the message bus.
pub data Call : Type 0 where
  create_customer : (email name org_id : String) → Call
  create_subscription :
      (customer : String) → (anchor_cents : Option ℕ) → (org_id plan_id : String) → Call
  update_subscription_plan : (subscription plan_id : String) → Call
  cancel_at_period_end : (subscription : String) → Call
  attach_payment_method : (payment_method customer : String) → Call
  set_default_payment_method : (customer payment_method : String) → Call
  create_portal_session : (customer return_url : String) → Call
  create_meter_event :
      (event_name customer : String) → (value : ℕ) → (identifier : String) → (timestamp : ℕ) → Call
  create_app_namespace : (name : String) → Call
  replace_deployment create_deployment : AppDeployment → Call
  replace_service create_service : AppService → Call
  put_route : (domain target : String) → Call
  publish_live : (saga_id deployment_id : Option String) → (status : String) → Call
