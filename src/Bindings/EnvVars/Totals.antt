-- ===== src/Bindings/EnvVars/Totals.antt =====
-- Which variables an app gets from its bindings.
use absolo_cloud_services.Base.{
  not, String, ◌≡◌, refl, Option, none, some, ◌==◌, eq_iff, List, [], ◌∷◌, head?, filter,
  if◌then◌else◌, arith,
}
use absolo_cloud_services.Runtime.Env.{Env}
use absolo_cloud_services.Runtime.State.{State}
use absolo_cloud_services.Runtime.Action.{in_table}
use absolo_cloud_services.Schema.Bindings.{Binding}
use absolo_cloud_services.Runtime.Tables.Databases.{managed_databases}
use absolo_cloud_services.Runtime.Tables.Storage.{buckets}
use absolo_cloud_services.Databases.Instances.{database_not_found}
use absolo_cloud_services.Storage.Buckets.{bucket_not_found}
use absolo_cloud_services.Bindings.EnvVars.{database_vars, bucket_vars, password_of}
use absolo_cloud_services.Runtime.Tables.Storage.{buckets}
use absolo_cloud_services.Bindings.EnvVars.{
  EnvVars, put, value_of, database_vars, bucket_vars, password_of,
}
use absolo_cloud_services.Databases.Instances.{database_not_found}
use absolo_cloud_services.Storage.Buckets.{bucket_not_found}

-- A variable has the value that it was set to last.
pub value_of-put :
    (name n value : String) (vars : EnvVars)
    → value_of name (put n value vars) ≡ (if n == name then some value else value_of name vars)
unfolding value_of put
value_of-put name n value [] = refl
value_of-put name n value ((m, v) ∷ vars) =
    ground (arith, eq_iff m n, eq_iff n name, eq_iff m name, value_of-put name n value vars)

-- What a resource adds, where it is there.
abbrev pub added : {Row : Type 0} → (Row → EnvVars → EnvVars) → Option Row → EnvVars → EnvVars
added f none vars = vars
added f (some r) vars = f r vars

module _ ⦃env : Env⦄ where
  -- What a binding adds: nothing unless it is to be injected, its resource is a database or a
  -- bucket, and the table has that resource.
  abbrev pub added_by : State → Binding → EnvVars → EnvVars
  added_by s b vars =
      if not b.auto_inject
      then vars
      else if b.resource_type == "database"
      then added (λ db. database_vars b.env_prefix db (password_of db))
          (head? (filter (λ r. r.id == b.resource_id) (in_table managed_databases s))) vars
      else if b.resource_type == "bucket"
      then added (bucket_vars b.env_prefix)
          (head? (filter (λ r. r.id == b.resource_id) (in_table buckets s))) vars
      else vars

  -- One binding after another.
  abbrev pub all_added : State → List Binding → EnvVars → EnvVars
  all_added s [] vars = vars
  all_added s (b ∷ l) vars = all_added s l (added_by s b vars)
