-- ===== src/Billing/PaymentMethods/Updates.antt =====
-- What the two updates that choose a default make of the payment methods.
use native.Mathlib.Nat.{le_trans}
use absolo_cloud_services.Base.{
  ◌≤◌, String, ◌≡◌, ◌≢◌, refl, ◌∙◌, inl, inr, Bool, true, false, ◌&&◌, ◌||◌, Bool-cases, ◌==◌,
  eq_refl, eq_iff, List, count, count_congr, count_mono, count_or_le, count_disjoint, and_left,
  if◌then◌else◌, arith,
}
use absolo_cloud_services.Runtime.Env.{Env}
use absolo_cloud_services.Runtime.State.{State}
use absolo_cloud_services.Runtime.Action.{in_table}
use absolo_cloud_services.Runtime.Laws.{count-update_keeps}
use absolo_cloud_services.Runtime.Tables.Billing.{payment_methods}
use absolo_cloud_services.Schema.Billing.{PaymentMethod}
use absolo_cloud_services.Billing.PaymentMethods.{make_default}

abbrev pub is_default_of : String → PaymentMethod → Bool
is_default_of org_id r = r.org_id == org_id && r.is_default

abbrev pub has_id : String → PaymentMethod → Bool
has_id id r = r.id == id

abbrev pub is_owned : String → String → PaymentMethod → Bool
is_owned id org_id r = r.id == id && r.org_id == org_id

module _ ⦃env : Env⦄ where
  -- The primary key holds, and each organization has one default at most.
  pub record IsValid (s : State) : Type 0 where
    pub keyed : (id : String) → count (has_id id) (in_table payment_methods s) ≤ 1
    pub one_default :
        (org_id : String) → count (is_default_of org_id) (in_table payment_methods s) ≤ 1

  module _ (org_id pm_id : String) (s : State)
      (keyed : (id : String) → count (has_id id) (in_table payment_methods s) ≤ 1)
      (owned : 1 ≤ count (is_owned pm_id org_id) (in_table payment_methods s)) where
    -- The method is of no other organization.
    not_owned :
        (o : String) → o ≢ org_id → count (is_owned pm_id o) (in_table payment_methods s) ≡ 0
    not_owned o other = omega (
      arith,
      keyed pm_id,
      owned,
      count_disjoint (is_owned pm_id org_id) (is_owned pm_id o) (has_id pm_id)
          (in_table payment_methods s) (λ r h. and_left _ _ h)
          (λ r h. ground (arith, eq_iff r.org_id o, eq_iff r.org_id org_id)),
    )

    cleared : PaymentMethod → PaymentMethod
    cleared r = if r.org_id == org_id then record r { is_default = false } else r

    -- The defaults of an organization after the two updates, by the rows before them.
    made_defaults :
        (o : String)
        → count (is_default_of o) (in_table payment_methods (make_default org_id pm_id s).1)
          ≡ count
              (λ r. is_default_of o (
                if (cleared r).id == pm_id
                then record (cleared r) { is_default = true }
                else cleared r))
              (in_table payment_methods s)
    unfolding make_default cleared
    made_defaults o =
        env.count-update_where (is_default_of o) (has_id pm_id) _ _
        ∙ env.count-update_where _ (λ r. r.org_id == org_id) _ s.payment_methods

    pub made_default :
        count (is_default_of org_id) (in_table payment_methods (make_default org_id pm_id s).1)
        ≡ count (is_owned pm_id org_id) (in_table payment_methods s)
    unfolding cleared
    made_default =
        made_defaults org_id ∙ count_congr _ _ (in_table payment_methods s) (λ r. ground arith)

    pub made_chosen :
        count
          (λ r. is_default_of org_id r && r.id == pm_id)
          (in_table payment_methods (make_default org_id pm_id s).1)
        ≡ count (is_owned pm_id org_id) (in_table payment_methods s)
    unfolding make_default
    made_chosen =
        env.count-update_where (λ r. is_default_of org_id r && r.id == pm_id) (has_id pm_id) _ _
        ∙ env.count-update_where _ (λ r. r.org_id == org_id) _ s.payment_methods
        ∙ count_congr _ _ (in_table payment_methods s) (λ r. ground arith)

    made_other :
        (o : String)
        → o ≢ org_id
        → count (is_default_of o) (in_table payment_methods (make_default org_id pm_id s).1)
          ≤ count (is_default_of o) (in_table payment_methods s)
    unfolding cleared
    made_other o other = rw (made_defaults o) (
        le_trans
          (count_mono _ (λ r. is_owned pm_id o r || is_default_of o r) rows_before
            (λ r h. ground (arith, eq_iff r.org_id o, eq_iff r.org_id org_id)))
          (omega (
            arith,
            count_or_le (is_owned pm_id o) (is_default_of o) rows_before,
            not_owned o other,
          )))
      where
        rows_before : List PaymentMethod
        rows_before = in_table payment_methods s

    make_default_keeps :
        (q : PaymentMethod → Bool)
        → ((r : PaymentMethod) (b : Bool) → q (record r { is_default = b }) ≡ q r)
        → count q (in_table payment_methods (make_default org_id pm_id s).1)
          ≡ count q (in_table payment_methods s)
    unfolding make_default
    make_default_keeps q h =
        count-update_keeps q (has_id pm_id) (λ r. record r { is_default = true }) _ (λ r. h r true)
        ∙ count-update_keeps q (λ r. r.org_id == org_id) (λ r. record r { is_default = false })
            s.payment_methods (λ r. h r false)

    pub make_default-IsValid :
        ((o : String) → count (is_default_of o) (in_table payment_methods s) ≤ 1)
        → IsValid (make_default org_id pm_id s).1
    make_default-IsValid one = record {
      keyed = λ id. rw (make_default_keeps (has_id id) (λ _ _. refl)) (keyed id);
      one_default = λ o. elim (Bool-cases (o == org_id)) [
        | inl same ↦
            let e : o ≡ org_id = (eq_iff o org_id).0 same in
            rw (e, made_default)
              (le_trans
                (count_mono (is_owned pm_id org_id) (has_id pm_id) (in_table payment_methods s)
                  (λ r h. and_left _ _ h))
                (keyed pm_id))
        | inr other ↦ le_trans (made_other o (λ e. cc (rw (e, eq_refl) at other))) (one o)
      ];
    }

  -- Validity is about the payment methods only.
  pub IsValid-of_table :
      (s u : State) → s.payment_methods ≡ u.payment_methods → IsValid u → IsValid s
  IsValid-of_table s u e h = record {
    keyed = λ id. rw e (h.keyed id);
    one_default = λ o. rw e (h.one_default o);
  }
