-- ===== src/Storage/LifecycleRules.antt =====
-- Lifecycle rules: `setLifecycleRules` and `listLifecycleRules` of
-- services/control-plane/src/modules/storage/storage.service.ts.
use absolo_cloud_services.Base.{ℕ, String, Option, ◌==◌, ltb, List, [], ◌∷◌, length}
use absolo_cloud_services.Result.{ok}
use absolo_cloud_services.Runtime.Env.{Env}
use absolo_cloud_services.Runtime.Action.{
  Action, pure, ◌>>=◌, ◌>>◌, when, now, new_id, select, insert_all, delete,
}
use absolo_cloud_services.Schema.Storage.{LifecycleRule}
use absolo_cloud_services.Runtime.Tables.Storage.{bucket_lifecycle_rules}
use absolo_cloud_services.Storage.Buckets.{get_bucket}

pub record RuleOptions : Type 0 where
  pub prefix : String
  pub expire_days : Option ℕ
  pub transition_days : Option ℕ
  pub transition_class : Option String

abbrev pub rule_row : String → String → RuleOptions → ℕ → LifecycleRule
rule_row id bucket_id rule at = record {
  id = id;
  bucket_id = bucket_id;
  prefix = rule.prefix;
  expire_days = rule.expire_days;
  transition_days = rule.transition_days;
  transition_class = rule.transition_class;
  created_at = at;
}

module _ ⦃env : Env⦄ where
  -- A row with a fresh id for each rule. The rows of one statement have one time.
  pub rule_rows : String → ℕ → List RuleOptions → Action (List LifecycleRule)
  rule_rows bucket_id at [] s = (ok [], s)
  rule_rows bucket_id at (rule ∷ rules) s =
      (do
        id ← new_id "lcr"
        rows ← rule_rows bucket_id at rules
        pure (rule_row id bucket_id rule at ∷ rows))
        s

  pub insert_rules : String → List RuleOptions → Action (Unit {0})
  unfolding rule_rows
  insert_rules bucket_id rules = do
    at ← now
    rows ← rule_rows bucket_id at rules
    insert_all bucket_lifecycle_rules rows

  pub set_lifecycle_rules : String → List RuleOptions → Action (Unit {0})
  unfolding insert_rules
  set_lifecycle_rules bucket_id rules = do
    get_bucket bucket_id
    delete bucket_lifecycle_rules (λ r. r.bucket_id == bucket_id)
    when (ltb 0 (length rules)) (insert_rules bucket_id rules)

  abbrev pub list_lifecycle_rules : String → Action (List LifecycleRule)
  list_lifecycle_rules bucket_id = select bucket_lifecycle_rules (λ r. r.bucket_id == bucket_id)
