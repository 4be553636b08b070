-- ===== src/Billing/PaymentMethods/Additions.antt =====
-- What `addPaymentMethod` of services/control-plane/src/modules/billing/billing.service.ts leaves.
use absolo_cloud_services.Base.{
  ℕ, ◌+◌, ◌≤◌, String, ◌⧺◌, ◌≡◌, refl, sym, ap, ◌∙◌, ◌⊎◌, inl, inr, Bool, true, false, ◌&&◌,
  Bool-cases, ◌==◌, eq_iff, nat_eq, filter, length, count, count_none, length-filter, and_left,
  if◌then◌else◌, arith,
}
use absolo_cloud_services.Result.{is_ok, Result-cases}
use absolo_cloud_services.Runtime.Env.{Env}
use absolo_cloud_services.Runtime.State.{State}
use absolo_cloud_services.Runtime.Action.{Action, pure, ◌>>=◌, ◌>>◌, when, send, in_table, insert}
use absolo_cloud_services.Runtime.Laws.{>>=-ok, >>=-err, >>=_frame, insert_unique, count-insert}
use absolo_cloud_services.Runtime.Stripe.{Customer, Call, StripePaymentMethod}
use absolo_cloud_services.Runtime.Tables.Billing.{payment_methods}
use absolo_cloud_services.Schema.Billing.{PaymentMethod}
use absolo_cloud_services.Billing.Customers.{
  get_or_create_stripe_customer, get_or_create_stripe_customer_frame,
}
use absolo_cloud_services.Billing.PaymentMethods.{
  payment_method_row, list_payment_methods, store_payment_method, add_payment_method,
}
use absolo_cloud_services.Billing.PaymentMethods.Updates.{
  IsValid-of_table, IsValid, is_default_of, has_id,
}

module _ ⦃env : Env⦄ where
  -- The rest after the row is there.
  finish_addition : Customer → StripePaymentMethod → PaymentMethod → Action PaymentMethod
  finish_addition customer pm row = do
    when row.is_default
        (send (Call.set_default_payment_method customer.id pm.id) env.customers_update)
    pure row

  finish_addition_frame :
      (customer : Customer) (pm : StripePaymentMethod) (row : PaymentMethod) (s : State)
      → (finish_addition customer pm row s).1.payment_methods ≡ s.payment_methods
  unfolding finish_addition
  finish_addition_frame customer pm row s =
      >>=_frame (λ u. u.payment_methods)
        (when row.is_default
          (send (Call.set_default_payment_method customer.id pm.id) env.customers_update))
        (λ _. pure row) s
        (elim (Bool-cases row.is_default) [ inl e ↦ rw e refl | inr e ↦ rw e refl ]) (λ _ _. refl)

  -- The rows after a method is stored: Stripe's last call changes none.
  stored :
      (org_id : String) (customer : Customer) (pm : StripePaymentMethod) (s : State)
      → (store_payment_method org_id customer pm s).1.payment_methods
        ≡ (insert payment_methods
            (payment_method_row
              ("pm" ⧺ "_" ⧺ env.ulid s.tick)
              org_id
              pm
              (nat_eq (length (filter (λ r. r.org_id == org_id) (in_table payment_methods s))) 0)
              (env.clock (s.tick + 1)))
            (record s { tick = s.tick + 1 + 1 })).1.payment_methods
  unfolding store_payment_method list_payment_methods finish_addition
  stored org_id customer pm s = elim (Result-cases (insert payment_methods row u).0) [
    | inl (x, e) ↦
        ap (λ o. o.1.payment_methods)
          (>>=-ok (insert payment_methods row) (λ _. finish_addition customer pm row) u e)
        ∙ finish_addition_frame customer pm row (insert payment_methods row u).1
    | inr (x, e) ↦
        ap (λ o. o.1.payment_methods)
          (>>=-err (insert payment_methods row) (λ _. finish_addition customer pm row) u e)
  ]
    where
      row : PaymentMethod
      row =
          payment_method_row ("pm" ⧺ "_" ⧺ env.ulid s.tick) org_id pm
            (nat_eq (length (filter (λ r. r.org_id == org_id) (in_table payment_methods s))) 0)
            (env.clock (s.tick + 1))

      u : State
      u = record s { tick = s.tick + 1 + 1 }

  nat_eq_zero : (n : ℕ) → nat_eq n 0 ≡ true → n ≡ 0
  nat_eq_zero n h = ground arith

  no_default :
      (org_id o : String) (s : State)
      → org_id ≡ o
      → length (filter (λ r. r.org_id == org_id) (in_table payment_methods s)) ≡ 0
      → count (is_default_of o) (in_table payment_methods s) ≡ 0
  no_default org_id o s same empty = rw (sym same) (
      count_none (is_default_of org_id) (λ r. r.org_id == org_id) (in_table payment_methods s)
        (λ r e. and_left _ _ e)
        (sym (length-filter (λ r. r.org_id == org_id) (in_table payment_methods s)) ∙ empty))

  added : (b c : Bool) (n : ℕ) → (n ≡ 0) ⊎ (c ≡ false) → n ≤ 1 → n + (if b && c then 1 else 0) ≤ 1
  added b c n h le = ground (arith, h, le)

  -- After an insert that either sets no default or finds none.
  at_most_one :
      (o : String) (row : PaymentMethod) (s : State)
      → (count (is_default_of o) (in_table payment_methods s) ≡ 0) ⊎ (is_default_of o row ≡ false)
      → count (is_default_of o) (in_table payment_methods s) ≤ 1
      → count (is_default_of o) (in_table payment_methods (insert payment_methods row s).1) ≤ 1
  at_most_one o row s h le = omega (
    arith,
    count-insert payment_methods (is_default_of o) row s,
    added (is_ok (insert payment_methods row s).0) (is_default_of o row)
        (count (is_default_of o) (in_table payment_methods s)) h le,
  )

  store_payment_method-IsValid :
      (org_id : String) (customer : Customer) (pm : StripePaymentMethod) (s : State)
      → IsValid s
      → IsValid (store_payment_method org_id customer pm s).1
  store_payment_method-IsValid org_id customer pm s h =
      let is_first =
        nat_eq (length (filter (λ r. r.org_id == org_id) (in_table payment_methods s))) 0 in
      let row =
        payment_method_row ("pm" ⧺ "_" ⧺ env.ulid s.tick) org_id pm is_first
          (env.clock (s.tick + 1)) in
      let u : State = record s { tick = s.tick + 1 + 1 } in
      IsValid-of_table (store_payment_method org_id customer pm s).1
        (insert payment_methods row u).1 (stored org_id customer pm s)
        (record {
          keyed = λ id.
              insert_unique payment_methods (has_id id) row u
                (λ r' e e'. ground (
                  arith,
                  eq_iff ("pm" ⧺ "_" ⧺ env.ulid s.tick) id,
                  eq_iff r'.id id,
                  eq_iff ("pm" ⧺ "_" ⧺ env.ulid s.tick) r'.id,
                ))
                (h.keyed id);
          one_default = λ o. elim (Bool-cases (org_id == o)) [
            | inr other ↦ at_most_one o row u (inr (rw other refl)) (h.one_default o)
            | inl same ↦ elim (Bool-cases is_first) [
              | inr later ↦ at_most_one o row u (inr (rw (same, later) refl)) (h.one_default o)
              | inl first ↦
                  at_most_one o row u
                    (inl (
                      no_default org_id o s ((eq_iff org_id o).0 same) (
                        nat_eq_zero
                          (length (filter (λ r. r.org_id == org_id) (in_table payment_methods s)))
                          first)))
                    (h.one_default o)
            ]
          ];
        })

  -- The rest once the customer is known.
  attach : String → String → Customer → Action PaymentMethod
  attach org_id stripe_id customer = do
    pm ←
        send (Call.attach_payment_method stripe_id customer.id)
          (λ n. env.payment_methods_attach n stripe_id)
    store_payment_method org_id customer pm

  attach-IsValid :
      (org_id stripe_id : String) (customer : Customer) (s : State)
      → IsValid s
      → IsValid (attach org_id stripe_id customer s).1
  unfolding attach
  attach-IsValid org_id stripe_id customer s h =
      let call =
        send (Call.attach_payment_method stripe_id customer.id)
          (λ n. env.payment_methods_attach n stripe_id) in
      elim (Result-cases (env.payment_methods_attach s.tick stripe_id)) [
        | inr (x, e) ↦
            rw (>>=-err call (λ pm. store_payment_method org_id customer pm) s e)
              (IsValid-of_table (call s).1 s refl h)
        | inl (pm, e) ↦ rw (>>=-ok call (λ pm. store_payment_method org_id customer pm) s e) (
            store_payment_method-IsValid org_id customer pm (call s).1
              (IsValid-of_table (call s).1 s refl h))
      ]

  -- To add a payment method keeps the tables valid, whatever it returns or throws.
  pub add_payment_method-IsValid :
      (org_id stripe_id : String) (s : State)
      → IsValid s
      → IsValid (add_payment_method org_id stripe_id s).1
  unfolding add_payment_method attach
  add_payment_method-IsValid org_id stripe_id s h =
      let first =
        get_or_create_stripe_customer_frame (λ u. u.payment_methods) (λ _ _ _ _. refl) org_id s in
      let s1 = (get_or_create_stripe_customer org_id s).1 in
      elim (Result-cases (get_or_create_stripe_customer org_id s).0) [
        | inr (x, e) ↦
            rw (>>=-err (get_or_create_stripe_customer org_id) (attach org_id stripe_id) s e)
              (IsValid-of_table s1 s first h)
        | inl (customer, e) ↦
            rw (>>=-ok (get_or_create_stripe_customer org_id) (attach org_id stripe_id) s e)
              (attach-IsValid org_id stripe_id customer s1 (IsValid-of_table s1 s first h))
      ]
