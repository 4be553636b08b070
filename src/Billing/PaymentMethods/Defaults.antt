-- ===== src/Billing/PaymentMethods/Defaults.antt =====
-- What `setDefaultPaymentMethod` of services/control-plane/src/modules/billing/billing.service.ts
-- leaves.
use absolo_cloud_services.Billing.PaymentMethods.Updates.{
  IsValid-of_table, IsValid, is_default_of, has_id, is_owned, made_default, made_chosen,
  make_default-IsValid,
}
use absolo_cloud_services.Base.{
  String, ◌⧺◌, ◌≡◌, refl, ap, ◌∙◌, ◌⊎◌, inl, inr, ◌&&◌, Option, ◌==◌, head?, filter, count,
  count_mono, count_pos_of_head?, head?-filter-none, and_left, Option-cases, arith,
}
use absolo_cloud_services.Result.{err, Error, not_found}
use absolo_cloud_services.Runtime.Env.{Env}
use absolo_cloud_services.Runtime.State.{State}
use absolo_cloud_services.Runtime.Action.{Action, ◌>>=◌, ◌>>◌, or_throw, send, in_table}
use absolo_cloud_services.Runtime.Laws.{or_throw-none, or_throw-some, >>=_frame}
use absolo_cloud_services.Runtime.Stripe.{Call}
use absolo_cloud_services.Runtime.Tables.Billing.{payment_methods}
use absolo_cloud_services.Schema.Billing.{PaymentMethod}
use absolo_cloud_services.Billing.Customers.{
  get_or_create_stripe_customer, get_or_create_stripe_customer_frame,
}
use absolo_cloud_services.Billing.PaymentMethods.{make_default, set_default_payment_method}

module _ ⦃env : Env⦄ where
  -- After the defaults are set, nothing sees the calls of Stripe that follow.
  finish : (org_id stripe_pm_id : String) → Action (Unit {0})
  finish org_id stripe_pm_id = do
    customer ← get_or_create_stripe_customer org_id
    send (Call.set_default_payment_method customer.id stripe_pm_id) env.customers_update

  finish_frame :
      (org_id stripe_pm_id : String) (s : State)
      → (finish org_id stripe_pm_id s).1.payment_methods ≡ s.payment_methods
  unfolding finish
  finish_frame org_id stripe_pm_id s =
      >>=_frame (λ u. u.payment_methods) (get_or_create_stripe_customer org_id)
        (λ customer.
          send (Call.set_default_payment_method customer.id stripe_pm_id) env.customers_update)
        s (get_or_create_stripe_customer_frame (λ u. u.payment_methods) (λ _ _ _ _. refl) org_id s)
        (λ _ _. refl)

  abbrev pub missing : String → Error
  missing pm_id = not_found ("Payment method " ⧺ pm_id ⧺ " not found")

  abbrev chosen : String → String → State → Option PaymentMethod
  chosen org_id pm_id s = head? (filter (is_owned pm_id org_id) (in_table payment_methods s))

  rest : String → String → PaymentMethod → Action (Unit {0})
  unfolding finish
  rest org_id pm_id pm = do make_default org_id pm_id; finish org_id pm.stripe_pm_id

  set_default_payment_method_lem :
      (org_id pm_id : String) (s : State)
      → set_default_payment_method org_id pm_id s
        ≡ (or_throw (missing pm_id) (chosen org_id pm_id s) >>= rest org_id pm_id) s
  unfolding set_default_payment_method rest
  set_default_payment_method_lem org_id pm_id s = refl

  rest_table :
      (org_id pm_id : String) (pm : PaymentMethod) (s : State)
      → (rest org_id pm_id pm s).1.payment_methods ≡ (make_default org_id pm_id s).1.payment_methods
  unfolding rest make_default
  rest_table org_id pm_id pm s = finish_frame org_id pm.stripe_pm_id (make_default org_id pm_id s).1

  -- The choice of a default keeps the tables valid, whatever it returns or throws.
  pub set_default_payment_method-IsValid :
      (org_id pm_id : String) (s : State)
      → IsValid s
      → IsValid (set_default_payment_method org_id pm_id s).1
  set_default_payment_method-IsValid org_id pm_id s h =
      elim (Option-cases (chosen org_id pm_id s)) [
        | inl e ↦
            rw
              (
                set_default_payment_method_lem,
                or_throw-none (missing pm_id) _ (rest org_id pm_id) s e,
              )
              h
        | inr (pm, e) ↦
            rw
              (
                set_default_payment_method_lem,
                or_throw-some (missing pm_id) _ (rest org_id pm_id) s e,
              )
              (IsValid-of_table _ _ (rest_table org_id pm_id pm s) (
                make_default-IsValid org_id pm_id s h.keyed
                  (count_pos_of_head? (is_owned pm_id org_id) (in_table payment_methods s) e)
                  h.one_default))
      ]

  -- Where the organization has the payment method, it is the organization's one default
  -- afterwards, also if a call of Stripe throws. Where it has not, the choice throws and changes
  -- nothing.
  pub set_default_payment_method_chosen :
      (org_id pm_id : String) (s : State)
      → IsValid s
      → let owned = count (is_owned pm_id org_id) (in_table payment_methods s) in
        let (r, s') = set_default_payment_method org_id pm_id s in
        ((owned ≡ 0) × (r ≡ err (missing pm_id)) × (s' ≡ s))
        ⊎ ((owned ≡ 1)
            × (count (is_default_of org_id) (in_table payment_methods s') ≡ 1)
            × (count (λ r. is_default_of org_id r && r.id == pm_id) (in_table payment_methods s')
                ≡ 1))
  set_default_payment_method_chosen org_id pm_id s h = elim (Option-cases (chosen org_id pm_id s)) [
    | inl e ↦
        let same =
          set_default_payment_method_lem org_id pm_id s
          ∙ or_throw-none (missing pm_id) _ (rest org_id pm_id) s e in
        inl (
          head?-filter-none (is_owned pm_id org_id) (in_table payment_methods s) e,
          ap (λ o. o.0) same,
          ap (λ o. o.1) same,
        )
    | inr (pm, e) ↦
        let e' =
          set_default_payment_method_lem org_id pm_id s
          ∙ or_throw-some (missing pm_id) _ (rest org_id pm_id) s e in
        let table : (set_default_payment_method org_id pm_id s).1.payment_methods
            ≡ (make_default org_id pm_id s).1.payment_methods =
          ap (λ o. o.1.payment_methods) e' ∙ rest_table org_id pm_id pm s in
        let some_owned =
          count_pos_of_head? (is_owned pm_id org_id) (in_table payment_methods s) e in
        let one : count (is_owned pm_id org_id) (in_table payment_methods s) ≡ 1 = omega (
          arith,
          some_owned,
          h.keyed pm_id,
          count_mono (is_owned pm_id org_id) (has_id pm_id) (in_table payment_methods s)
              (λ r h'. and_left _ _ h'),
        ) in
        inr (
          one,
          ap (λ t. count (is_default_of org_id) (env.rows t)) table
              ∙ made_default org_id pm_id s h.keyed some_owned
              ∙ one,
          ap (λ t. count (λ r. is_default_of org_id r && r.id == pm_id) (env.rows t)) table
              ∙ made_chosen org_id pm_id s h.keyed some_owned
              ∙ one,
        )
  ]
