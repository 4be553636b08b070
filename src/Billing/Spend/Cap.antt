-- ===== src/Billing/Spend/Cap.antt =====
-- What the check of the spend cap reports.
use absolo_cloud_services.Base.{
  ℕ, ◌+◌, ◌-◌, ◌*◌, ◌≤◌, String, ◌⧺◌, ◌≡◌, refl, ap, ◌∙◌, inl, inr, true, Bool-cases, Option, some,
  or_default, ◌==◌, List, [], ◌∷◌, map, head?, filter, arith,
}
use absolo_cloud_services.Result.{ok, not_found}
use absolo_cloud_services.Runtime.Env.{Env}
use absolo_cloud_services.Runtime.State.{State}
use absolo_cloud_services.Runtime.Action.{Action, pure, ◌>>=◌, in_table}
use absolo_cloud_services.Runtime.Laws.{>>=-ok, or_throw-some}
use Prim.Native.Char.{code}
use absolo_cloud_services.Texts.Decimals.{read_digits-append}
use absolo_cloud_services.Schema.Scalars.{
  number, string, read_digits, is_digit, plus, number_of, reaches,
}
use absolo_cloud_services.Schema.Iam.{Organization}
use absolo_cloud_services.Schema.Billing.{UsageHourly, Subscription}
use absolo_cloud_services.Runtime.Tables.Billing.{usage_hourly, subscriptions}
use absolo_cloud_services.Runtime.Tables.Iam.{organizations}
use absolo_cloud_services.Billing.Subscriptions.{with_plan, get_subscription}
use absolo_cloud_services.Billing.Spend.{
  Spend, SpendCapStatus, items_of, in_period, add_to_group, group_by_kind, sum_items, usage_total,
  spend_since, spend_of, get_current_period_spend, exceeds, cap_status, check_spend_cap,
}

abbrev pub total_qty : List UsageHourly → ℕ
total_qty [] = 0
total_qty (r ∷ rows) = r.qty + total_qty rows

abbrev total_of : List (String × ℕ) → ℕ
total_of [] = 0
total_of ((k, n) ∷ groups) = n + total_of groups

total_of-add_to_group :
    (kind : String) (qty : ℕ) (groups : List (String × ℕ))
    → total_of (add_to_group kind qty groups) ≡ total_of groups + qty
unfolding add_to_group
total_of-add_to_group kind qty [] = omega arith
total_of-add_to_group kind qty ((k, n) ∷ groups) =
    ground (arith, total_of-add_to_group kind qty groups)

-- The groups hold the quantities of the rows.
total_of-group_by_kind : (rows : List UsageHourly) → total_of (group_by_kind rows) ≡ total_qty rows
unfolding group_by_kind
total_of-group_by_kind [] = refl
total_of-group_by_kind (r ∷ rows) =
    omega
      (arith, total_of-add_to_group r.kind r.qty (group_by_kind rows), total_of-group_by_kind rows)

shifted : (n k d : ℕ) → (n + k) * 10 + d ≡ n * 10 + (k * 10 + d)
shifted n k d = omega arith

-- More digits in front make no smaller number.
read_digits_grows :
    (n k m : ℕ) (s : String)
    → read_digits k s ≡ some m
    → (m' : ℕ) × (read_digits (n + k) s ≡ some m') × (n + m ≤ m')
unfolding read_digits
read_digits_grows n k m String.[] h = (n + k, refl, ground (arith, h))
read_digits_grows n k m (String.◌∷◌ c s) h = elim (Bool-cases (is_digit c)) [
  | inr other ↦ cc (rw other at h)
  | inl digit ↦
      let d = code c - 48 in
      let (m', e, le) = read_digits_grows (n * 10) (k * 10 + d) m s (rw digit at h) in
      (m', rw digit (ap (λ j. read_digits j s) (shifted n k d) ∙ e), omega (arith, le))
]

zero_digit : read_digits 0 "0" ≡ some 0
unfolding read_digits
zero_digit = refl

plus_zero : (a : ℕ) → a ≡ a + 0
plus_zero a = omega arith

reached : (limit m : ℕ) → limit ≤ m → reaches (some m) limit ≡ true
reached limit m h = ground (arith, h)

module _ ⦃env : Env⦄ where
  -- A sum comes as the text of its digits.
  abbrev pub DigitsOfSums : Type 0
  DigitsOfSums = (n : ℕ) → (t : String) × (env.sql_sum n ≡ string t) × (read_digits 0 t ≡ some n)

  -- Texts are joined, which is no less than the sum.
  joined :
      (a : ℕ) (s : String) (groups : List (String × ℕ))
      → DigitsOfSums
      → read_digits 0 s ≡ some a
      → (m : ℕ) × (number_of (sum_items (string s) (map usage_total groups)) ≡ some m)
        × (a + total_of groups ≤ m)
  unfolding sum_items plus
  joined a s [] digits h = (a, h, omega arith)
  joined a s ((k, n) ∷ groups) digits h =
      let (t, e, read) = digits n in
      let (m', more, le) = read_digits_grows a 0 n t read in
      let (m, whole, le') =
        joined m' (s ⧺ t) groups digits
          (read_digits-append 0 a s t h ∙ (ap (λ j. read_digits j t) (plus_zero a) ∙ more)) in
      (
        m,
        ap (λ x. number_of (sum_items (plus (string s) x) (map usage_total groups))) e ∙ whole,
        omega (arith, le, le'),
      )

  total_reached :
      (groups : List (String × ℕ)) (limit : ℕ)
      → DigitsOfSums
      → limit ≤ total_of groups
      → reaches (number_of (sum_items (number 0) (map usage_total groups))) limit ≡ true
  unfolding sum_items plus
  total_reached [] limit digits h = ground (arith, h)
  total_reached ((k, n) ∷ groups) limit digits h =
      let (t, e, read) = digits n in
      let (m', more, le') = read_digits_grows 0 0 n t read in
      let (m, whole, le) =
        joined n ("0" ⧺ t) groups digits (read_digits-append 0 0 "0" t zero_digit ∙ read) in
      ap (λ x. reaches (number_of (sum_items (plus (number 0) x) (map usage_total groups))) limit) e
      ∙ ap (λ o. reaches o limit) whole
      ∙ reached limit m (omega (arith, le, h))

  abbrev report : Option ℕ → Spend → SpendCapStatus
  report cap spend = cap_status cap (sum_items (number 0) (items_of spend))

  -- The usage since the start of the period.
  spend_in_period :
      (org_id : String) (s : State) {sub : Subscription} {from : ℕ}
      → head? (filter (λ r. r.org_id == org_id) (in_table subscriptions s)) ≡ some sub
      → sub.current_period_start ≡ some from
      → (end : Option ℕ) × (get_current_period_spend org_id s ≡ (
        ok (
            Spend.period from end (
              map usage_total (
                group_by_kind
                  (filter (in_period org_id from (env.clock s.tick)) (in_table usage_hourly s))))),
        record s { tick = s.tick + 1 },
      ))
  unfolding get_current_period_spend get_subscription spend_of spend_since with_plan
  spend_in_period org_id s {sub} {from} found starts = (
    sub.current_period_end,
    ap (λ o. (with_plan o >>= spend_of org_id) s) found
        ∙ ap (λ o. spend_since org_id o sub.current_period_end s) starts,
  )

  -- Where the driver hands sums over as the text of their digits: an organization that has a cap
  -- and a subscription with a current period, whose usage from the start of the period until now
  -- adds up to the cap or more, is told that the cap is exceeded, with the cap's value, and nothing
  -- changes.
  pub check_spend_cap_safe :
      (org_id : String) (s : State) {org : Organization} {sub : Subscription} {limit from : ℕ}
      → DigitsOfSums
      → head? (filter (λ r. r.id == org_id) (in_table organizations s)) ≡ some org
      → org.spend_cap_limit_cents ≡ some limit
      → head? (filter (λ r. r.org_id == org_id) (in_table subscriptions s)) ≡ some sub
      → sub.current_period_start ≡ some from
      → limit
        ≤ total_qty (filter (in_period org_id from (env.clock s.tick)) (in_table usage_hourly s))
      → (status : SpendCapStatus) × (check_spend_cap org_id s
          ≡ (ok status, record s { tick = s.tick + 1 }))
        × (status.exceeded ≡ true)
        × (status.limit_cents ≡ limit)
  unfolding check_spend_cap
  check_spend_cap_safe org_id s {org} {sub} {limit} {from} digits known capped found starts reach =
      let (end, spent) = spend_in_period org_id s {sub = sub} {from = from} found starts in
      let rows = filter (in_period org_id from (env.clock s.tick)) (in_table usage_hourly s) in
      let groups = group_by_kind rows in
      let current = sum_items (number 0) (map usage_total groups) in
      let spend = Spend.period from end (map usage_total groups) in
      let last : Spend → Action SpendCapStatus = λ x. pure (report org.spend_cap_limit_cents x) in
      (
        report org.spend_cap_limit_cents spend,
        or_throw-some (not_found ("Org " ⧺ org_id ⧺ " not found"))
              (head? (filter (λ r. r.id == org_id) (in_table organizations s)))
              (λ o.
                get_current_period_spend org_id >>= λ x. pure (report o.spend_cap_limit_cents x))
              s known
            ∙ >>=-ok (get_current_period_spend org_id) last s (ap (λ o. o.0) spent)
            ∙ ap (λ u. last spend u) (ap (λ o. o.1) spent),
        ap (λ c. exceeds c current) capped
            ∙ total_reached groups limit digits (omega (arith, reach, total_of-group_by_kind rows)),
        ap (λ c. or_default c 0) capped,
      )
