-- ===== src/Tests/Usage.antt =====
-- The theorem on the spend cap at a sample state.
use absolo_cloud_services.Base.{ℕ, String, ◌≡◌, refl, true, [], ◌∷◌, arith}
use absolo_cloud_services.Result.{ok}
use absolo_cloud_services.Runtime.State.{State}
use absolo_cloud_services.Texts.{decimal}
use absolo_cloud_services.Texts.Decimals.{number_of-decimal}
use absolo_cloud_services.Tests.Concrete.{list_env}
use absolo_cloud_services.Tests.World.{world}
use absolo_cloud_services.Schema.Scalars.{string, read_digits}
use absolo_cloud_services.Schema.Billing.{UsageHourly}
use absolo_cloud_services.Billing.Spend.{SpendCapStatus, check_spend_cap, group_by_kind}
use absolo_cloud_services.Billing.Spend.Cap.{DigitsOfSums, check_spend_cap_safe}

abbrev usage : String → ℕ → UsageHourly
usage kind qty = record {
  org_id = "org_1";
  resource_id = "app_1";
  kind = kind;
  hour = 0;
  qty = qty;
}

abbrev busy : State
busy = record world { usage_hourly = usage "cpu" 9000 ∷ usage "ram" 700 ∷ usage "cpu" 2000 ∷ [] }

digits_of_sums : DigitsOfSums
digits_of_sums n = (decimal n, refl, number_of-decimal n)

check_spend_cap_safe_example :
    (status : SpendCapStatus) × (check_spend_cap "org_1" busy
      ≡ (ok status, record busy { tick = 1 }))
    × (status.exceeded ≡ true)
    × (status.limit_cents ≡ 10000)
check_spend_cap_safe_example =
    check_spend_cap_safe "org_1" busy {limit = 10000} {from = 0} digits_of_sums refl refl refl refl
      (omega arith)

-- The sums 1 and 5000 are joined to "015000", so a cap of 10000 counts as reached.
joined_sums :
    (check_spend_cap "org_1"
      (record busy { usage_hourly = usage "cpu" 5000 ∷ usage "ram" 1 ∷ [] })).0
    ≡ ok (record { exceeded = true; current_cents = string "015000"; limit_cents = 10000 })
unfolding check_spend_cap decimal group_by_kind read_digits
joined_sums = refl
