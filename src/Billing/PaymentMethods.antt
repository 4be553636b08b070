-- ===== src/Billing/PaymentMethods.antt =====
-- Payment methods: `listPaymentMethods`, `addPaymentMethod` and `setDefaultPaymentMethod` of
-- services/control-plane/src/modules/billing/billing.service.ts.
pub mod Updates
pub mod Defaults
pub mod Additions
use native.Mathlib.Nat.{le_trans}
use absolo_cloud_services.Base.{
  ℕ, zero, suc, ◌+◌, ◌-◌, ◌*◌, ◌/◌, ◌%◌, ◌≤◌, ◌<◌, String, ◌⧺◌, ◌≡◌, ◌≢◌, refl, sym, ap, ◌∙◌, ◌⊎◌,
  inl, inr, ◌↔◌, Bool, true, false, ◌&&◌, ◌||◌, not, Bool-cases, Option, none, some, is_some,
  some_eq, or_default, given, ◌==◌, eq_refl, eq_iff, eq_comm, nat_eq, ltb, leb, List, [], ◌∷◌, ◌++◌,
  map, head?, find, filter, length, get_elem?, count, count_congr, count_mono, count-false,
  count_none, count_split, count-append, count_pos_of_head?, head?-filter-none, head?-filter-some,
  head?-filter-count, length-filter, and_left, and_right, and_intro, Option-cases, if◌then◌else◌,
  arith,
}
use absolo_cloud_services.Result.{
  Result, ok, err, is_ok, Error, not_found, conflict, unauthorized, forbidden, bad_request,
  unique_violation, foreign_key_violation, failure, Result-cases,
}
use absolo_cloud_services.Runtime.Env.{Env}
use absolo_cloud_services.Runtime.State.{State}
use absolo_cloud_services.Runtime.Action.{
  Action, pure, throw, ◌>>=◌, ◌>>◌, when, or_throw, catch, transaction, lift, next, respond, send,
  now, new_id, Relation, in_table, select, select_first, clash, insert, insert_or_ignore, upsert,
  update, delete,
}
use mathlib.Core.Option
use absolo_cloud_services.Runtime.Stripe.{Customer, Call, StripePaymentMethod}
use absolo_cloud_services.Runtime.Tables.Billing.{payment_methods}
use absolo_cloud_services.Schema.Billing.{PaymentMethod}
use absolo_cloud_services.Billing.Customers.{get_or_create_stripe_customer}

abbrev pub payment_method_row : String → String → StripePaymentMethod → Bool → ℕ → PaymentMethod
payment_method_row id org_id pm is_first created = record {
  id = id;
  org_id = org_id;
  stripe_pm_id = pm.id;
  brand = Option.map (λ c. c.brand) pm.card;
  last4 = Option.map (λ c. c.last4) pm.card;
  exp_month = Option.map (λ c. c.exp_month) pm.card;
  exp_year = Option.map (λ c. c.exp_year) pm.card;
  is_default = is_first;
  created_at = created;
}

module _ ⦃env : Env⦄ where
  pub list_payment_methods : String → Action (List PaymentMethod)
  list_payment_methods org_id = select payment_methods (λ r. r.org_id == org_id)

  -- After the customer and the attached method are known.
  store_payment_method : String → Customer → StripePaymentMethod → Action PaymentMethod
  unfolding list_payment_methods
  store_payment_method org_id customer pm = do
    methods ← list_payment_methods org_id
    let is_first = nat_eq (length methods) 0
    id ← new_id "pm"
    created ← now
    let row = payment_method_row id org_id pm is_first created
    insert payment_methods row
    when is_first (send (Call.set_default_payment_method customer.id pm.id) env.customers_update)
    pure row

  pub add_payment_method : String → String → Action PaymentMethod
  unfolding store_payment_method
  add_payment_method org_id stripe_payment_method_id = do
    customer ← get_or_create_stripe_customer org_id
    pm ←
        send (Call.attach_payment_method stripe_payment_method_id customer.id)
          (λ n. env.payment_methods_attach n stripe_payment_method_id)
    store_payment_method org_id customer pm

  -- The two updates, in the order of the code.
  pub make_default : String → String → Action (Unit {0})
  make_default org_id payment_method_id = do
    update payment_methods (λ r. r.org_id == org_id) (λ r. record r { is_default = false })
    update payment_methods (λ r. r.id == payment_method_id) (λ r. record r { is_default = true })

  pub set_default_payment_method : String → String → Action (Unit {0})
  unfolding make_default
  set_default_payment_method org_id payment_method_id = do
    found ← select_first payment_methods (λ r. r.id == payment_method_id && r.org_id == org_id)
    pm ← or_throw (not_found ("Payment method " ⧺ payment_method_id ⧺ " not found")) found
    make_default org_id payment_method_id
    customer ← get_or_create_stripe_customer org_id
    send (Call.set_default_payment_method customer.id pm.stripe_pm_id) env.customers_update
