-- ===== src/Billing/Spend.antt =====
-- The usage of an organization and its spend cap: `getUsageSummary`, `getCurrentPeriodSpend` and
-- `checkSpendCap` of services/control-plane/src/modules/billing/billing.service.ts.
pub mod Cap
use native.Mathlib.Nat.{le_trans}
use absolo_cloud_services.Base.{
  ℕ, zero, suc, ◌+◌, ◌-◌, ◌*◌, ◌/◌, ◌%◌, ◌≤◌, ◌<◌, String, ◌⧺◌, ◌≡◌, ◌≢◌, refl, sym, ap, ◌∙◌, ◌⊎◌,
  inl, inr, ◌↔◌, Bool, true, false, ◌&&◌, ◌||◌, not, Bool-cases, Option, none, some, is_some,
  some_eq, or_default, given, ◌==◌, eq_refl, eq_iff, eq_comm, nat_eq, ltb, leb, List, [], ◌∷◌, ◌++◌,
  map, head?, find, filter, length, get_elem?, count, count_congr, count_mono, count-false,
  count_none, count_split, count_or_le, count_disjoint, count-append, count_pos_of_head?,
  head?-filter_unseen, head?-filter_seen, head?-filter_only, head?-filter-none, head?-filter-some,
  head?-filter-count, length-filter, and_left, and_right, and_intro, Option-cases, if◌then◌else◌,
  arith,
}
use absolo_cloud_services.Result.{
  Result, ok, err, is_ok, Error, not_found, conflict, unauthorized, forbidden, bad_request,
  unique_violation, foreign_key_violation, failure, Result-cases,
}
use absolo_cloud_services.Runtime.Env.{Env}
use absolo_cloud_services.Runtime.State.{State}
use absolo_cloud_services.Runtime.Action.{
  Action, pure, throw, ◌>>=◌, ◌>>◌, when, or_throw, catch, transaction, lift, next, respond, send,
  now, new_id, Relation, in_table, select, select_first, clash, update_returning, insert_all,
  insert, insert_or_ignore, upsert, update, delete,
}
use absolo_cloud_services.Schema.Scalars.{Scalar, number, plus, at_least}
use absolo_cloud_services.Schema.Iam.{Organization}
use absolo_cloud_services.Schema.Billing.{UsageHourly}
use absolo_cloud_services.Runtime.Tables.Billing.{usage_hourly}
use absolo_cloud_services.Runtime.Tables.Iam.{organizations}
use absolo_cloud_services.Billing.Subscriptions.{SubscriptionView, get_subscription}

-- A group of `select kind, SUM(qty) … group by kind`.
pub record UsageTotal : Type 0 where
  pub kind : String
  pub total_qty : Scalar

-- `{ totalCents: 0, items: [] }`, or the usage of a period.
pub data Spend : Type 0 where
  no_period : Spend
  period : (start : ℕ) → (end : Option ℕ) → (items : List UsageTotal) → Spend

abbrev pub items_of : Spend → List UsageTotal
items_of no_period = []
items_of (period start end items) = items

pub record SpendCapStatus : Type 0 where
  pub exceeded : Bool
  pub current_cents : Scalar
  pub limit_cents : ℕ

-- `eq(orgId), gte(hour, from), lte(hour, to)`
abbrev pub in_period : String → ℕ → ℕ → UsageHourly → Bool
in_period org_id from to r = r.org_id == org_id && leb from r.hour && leb r.hour to

-- The sums of the groups: a row is added to the group of its kind.
unfoldable pub add_to_group : String → ℕ → List (String × ℕ) → List (String × ℕ)
add_to_group kind qty [] = (kind, qty) ∷ []
add_to_group kind qty ((k, n) ∷ groups) =
    if k == kind then (k, n + qty) ∷ groups else (k, n) ∷ add_to_group kind qty groups

unfoldable pub group_by_kind : List UsageHourly → List (String × ℕ)
unfolding add_to_group
group_by_kind [] = []
group_by_kind (r ∷ rows) = add_to_group r.kind r.qty (group_by_kind rows)

-- `items.reduce((sum, item) => sum + (item.totalQty ?? 0), 0)`
unfoldable pub sum_items : Scalar → List UsageTotal → Scalar
unfolding plus
sum_items sum [] = sum
sum_items sum (item ∷ items) = sum_items (plus sum item.total_qty) items

module _ ⦃env : Env⦄ where
  abbrev pub usage_total : String × ℕ → UsageTotal
  usage_total (kind, n) = record { kind = kind; total_qty = env.sql_sum n }

  abbrev pub get_usage_summary : String → ℕ → ℕ → Action (List UsageTotal)
  get_usage_summary org_id from to = do
    rows ← select usage_hourly (in_period org_id from to)
    pure (map usage_total (group_by_kind rows))

  spend_since : String → Option ℕ → Option ℕ → Action Spend
  spend_since org_id none end s = (ok no_period, s)
  spend_since org_id (some from) end s =
      (do to ← now; usage ← get_usage_summary org_id from to; pure (period from end usage)) s

  spend_of : String → Option SubscriptionView → Action Spend
  unfolding spend_since
  spend_of org_id none s = (ok no_period, s)
  spend_of org_id (some sub) s =
      spend_since org_id sub.subscription.current_period_start sub.subscription.current_period_end s

  unfoldable pub get_current_period_spend : String → Action Spend
  unfolding get_subscription spend_of
  get_current_period_spend org_id = do sub ← get_subscription org_id; spend_of org_id sub

  -- `limit != null && current >= limit`
  abbrev pub exceeds : Option ℕ → Scalar → Bool
  exceeds none current = false
  exceeds (some limit) current = at_least current limit

  abbrev pub cap_status : Option ℕ → Scalar → SpendCapStatus
  cap_status limit current = record {
    exceeded = exceeds limit current;
    current_cents = current;
    limit_cents = or_default limit 0;
  }

  unfoldable pub check_spend_cap : String → Action SpendCapStatus
  unfolding get_current_period_spend sum_items
  check_spend_cap org_id = do
    found ← select_first organizations (λ r. r.id == org_id)
    org ← or_throw (not_found ("Org " ⧺ org_id ⧺ " not found")) found
    spend ← get_current_period_spend org_id
    pure (cap_status org.spend_cap_limit_cents (sum_items (number 0) (items_of spend)))
