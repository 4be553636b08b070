-- ===== src/Billing/Customers.antt =====
-- Stripe customers, the portal, credits and tax profiles: `createStripeCustomer`,
-- `getOrCreateStripeCustomer`, `createPortalSession`, `addCredit` and `upsertTaxProfile` of
-- services/control-plane/src/modules/billing/billing.service.ts.
use absolo_cloud_services.Runtime.Laws.{or_throw_frame, >>=_frame}
use absolo_cloud_services.Runtime.State.{State}
use absolo_cloud_services.Base.{
  inr, filter, head?, inl, Bool-cases, ◌≡◌, List, ℕ, String, ◌⧺◌, true, false, Option, none, some,
  given, ◌==◌,
}
use absolo_cloud_services.Result.{Result-cases, not_found}
use absolo_cloud_services.Runtime.Env.{Env}
use absolo_cloud_services.Runtime.Action.{
  in_table, Action, pure, ◌>>=◌, ◌>>◌, or_throw, respond, send, now, new_id, select_first, insert,
  upsert, update,
}
use absolo_cloud_services.Runtime.Stripe.{Customer, Call}
use absolo_cloud_services.Runtime.Tables.Iam.{organizations}
use absolo_cloud_services.Runtime.Tables.Billing.{credits, tax_profiles}
use absolo_cloud_services.Schema.Iam.{Organization}
use absolo_cloud_services.Schema.Billing.{Credit}

module _ ⦃env : Env⦄ where
  pub create_stripe_customer : String → String → String → Action Customer
  create_stripe_customer org_id email name = do
    customer ← send (Call.create_customer email name org_id) env.customers_create
    update organizations (λ r. r.id == org_id)
        (λ r. record r { stripe_customer_id = some customer.id })
    pure customer

  -- `if (org.stripeCustomerId) return retrieve(…)`: the empty text is falsy.
  customer_of : Organization → Option String → Action Customer
  unfolding create_stripe_customer
  customer_of org none s =
      create_stripe_customer org.id ("billing@" ⧺ org.slug ⧺ ".absolo.cloud") org.name s
  customer_of org (some id) s = elim (id == "") [
    | true ↦ create_stripe_customer org.id ("billing@" ⧺ org.slug ⧺ ".absolo.cloud") org.name s
    | false ↦ respond (λ n. env.customers_retrieve n id) s
  ]

  pub get_or_create_stripe_customer : String → Action Customer
  unfolding customer_of
  get_or_create_stripe_customer org_id = do
    found ← select_first organizations (λ r. r.id == org_id)
    org ← or_throw (not_found ("Org " ⧺ org_id ⧺ " not found")) found
    customer_of org org.stripe_customer_id

  pub create_portal_session : String → String → Action String
  unfolding get_or_create_stripe_customer
  create_portal_session org_id return_url = do
    customer ← get_or_create_stripe_customer org_id
    send (Call.create_portal_session customer.id return_url) env.portal_sessions_create

  pub add_credit : String → String → ℕ → Option ℕ → Action Credit
  add_credit org_id kind amount_cents expires_at = do
    id ← new_id "crd"
    created ← now
    let credit : Credit = record {
      id = id;
      org_id = org_id;
      kind = kind;
      amount_cents = amount_cents;
      remaining_cents = amount_cents;
      expires_at = expires_at;
      applied_to_invoice_id = none;
      created_at = created;
    }
    insert credits credit
    pure credit

  pub upsert_tax_profile : String → String → Option String → Action (Unit {0})
  upsert_tax_profile org_id country vat_id = do
    at ← now
    default_updated ← now
    upsert tax_profiles (λ r r'. r.org_id == r'.org_id)
        (record {
          org_id = org_id;
          country = country;
          vat_id = vat_id;
          validated_at = none;
          exempt = false;
          updated_at = default_updated;
        })
        (λ r. record r { country = country; vat_id = given vat_id r.vat_id; updated_at = at })

  -- What sees neither the clock, the calls of Stripe nor the organizations.
  module _ {A : Type 0} (f : State → A)
      (blind : (m : ℕ) (c : List Call) (o : env.Table Organization) (u : State)
        → f (record u { tick = m; calls = c; organizations = o }) ≡ f u) where
    create_stripe_customer_frame :
        (org_id email name : String) (s : State)
        → f (create_stripe_customer org_id email name s).1 ≡ f s
    unfolding create_stripe_customer
    create_stripe_customer_frame org_id email name s =
        elim (Result-cases (env.customers_create s.tick)) [
          | inl (customer, e) ↦ rw (e, ◌>>=◌) (blind _ _ _ s)
          | inr (e, thrown) ↦ rw (thrown, ◌>>=◌) (blind _ _ s.organizations s)
        ]

    customer_of_frame :
        (org : Organization) (o : Option String) (s : State) → f (customer_of org o s).1 ≡ f s
    unfolding customer_of
    customer_of_frame org none s = create_stripe_customer_frame _ _ _ s
    customer_of_frame org (some id) s = elim (Bool-cases (id == "")) [
      | inl empty ↦ rw (empty, customer_of) (create_stripe_customer_frame _ _ _ s)
      | inr known ↦ rw (known, customer_of) (blind _ s.calls s.organizations s)
    ]

    pub get_or_create_stripe_customer_frame :
        (org_id : String) (s : State) → f (get_or_create_stripe_customer org_id s).1 ≡ f s
    unfolding get_or_create_stripe_customer
    get_or_create_stripe_customer_frame org_id s =
        >>=_frame f
          (or_throw (not_found ("Org " ⧺ org_id ⧺ " not found"))
            (head? (filter (λ r. r.id == org_id) (in_table organizations s))))
          (λ org. customer_of org org.stripe_customer_id) s (or_throw_frame f _ _ s)
          (λ org u. customer_of_frame org org.stripe_customer_id u)
