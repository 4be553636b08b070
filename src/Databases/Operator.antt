-- ===== src/Databases/Operator.antt =====
-- The custom resource of a database: `SIZE_SPECS`, `applyOperatorCR` and `buildOperatorCR` of
-- services/control-plane/src/modules/databases/databases.service.ts.
pub mod Engines
use mathlib.Core.Option
use absolo_cloud_services.Base.{
  ℕ, String, ◌⧺◌, Option, or_default, ◌==◌, List, [], ◌∷◌, find, if◌then◌else◌,
}
use absolo_cloud_services.Result.{Result, ok, err, Error, conflict, failure}
use absolo_cloud_services.Runtime.Env.{Env}
use absolo_cloud_services.Runtime.Action.{Action, ◌>>=◌, ◌>>◌, when, catch, lift, respond}
use absolo_cloud_services.Texts.{decimal}
use absolo_cloud_services.Schema.Databases.{ManagedDatabase}
use absolo_cloud_services.Runtime.Cluster.{Specs, OperatorCr}
use absolo_cloud_services.Databases.Instances.{get_database}

abbrev pub specs_of : String → String → Specs
specs_of cpu memory = record { cpu = cpu; memory = memory }

abbrev pub size_specs : List (String × Specs)
size_specs =
    ("xs", specs_of "250m" "256Mi")
    ∷ ("s", specs_of "500m" "512Mi")
    ∷ ("m", specs_of "1" "1Gi")
    ∷ ("l", specs_of "2" "2Gi")
    ∷ ("xl", specs_of "4" "4Gi")
    ∷ ("2xl", specs_of "8" "8Gi")
    ∷ ("4xl", specs_of "16" "16Gi")
    ∷ []

-- `SIZE_SPECS[size] ?? SIZE_SPECS['s']`
abbrev pub specs_for : String → Specs
specs_for size =
    or_default (Option.map (λ e. e.1) (find (λ e. e.0 == size) size_specs))
      (specs_of "500m" "512Mi")

abbrev pub replicas : ManagedDatabase → ℕ
replicas db = if db.ha then 3 else 1

-- A name that the code takes as not null.
abbrev pub some_text : Option String → String
some_text o = or_default o ""

unfoldable pub build_operator_cr : ManagedDatabase → Specs → Result OperatorCr
unfolding decimal
build_operator_cr db specs =
    let name = some_text db.k8s_cr_name in
    let namespace = some_text db.k8s_namespace in
    let storage = decimal db.storage_gb ⧺ "Gi" in
    if db.engine == "postgres"
    then ok (
        OperatorCr.postgres_cluster name namespace (replicas db) db.master_username storage specs
          specs)
    else if db.engine == "mysql"
    then ok (OperatorCr.percona_cluster name namespace (replicas db) specs storage)
    else if db.engine == "redis"
    then ok (OperatorCr.redis_failover name namespace (replicas db) specs (replicas db))
    else err (failure ("Unsupported engine: " ⧺ db.engine))

module _ ⦃env : Env⦄ where
  -- `catch (err) { if (err.statusCode !== 409) throw err }`
  pub unless_there : Error → Action (Unit {0})
  unless_there (conflict _) s = (ok tt, s)
  unless_there e s = (err e, s)

  pub create_objects : ManagedDatabase → Action (Unit {0})
  unfolding unless_there build_operator_cr
  create_objects db = do
    catch (respond (λ n. env.create_namespace n (some_text db.k8s_namespace))) unless_there
    cr ← lift (build_operator_cr db (specs_for db.size))
    catch (respond (λ n. env.create_object n cr)) unless_there

  unfoldable pub apply_operator_cr : String → Action (Unit {0})
  unfolding create_objects
  apply_operator_cr database_id = do
    db ← get_database database_id
    when env.has_cluster (create_objects db)
