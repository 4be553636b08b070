-- ===== src/Bindings/EnvVars.antt =====
-- The variables that an app is started with: `getInjectedEnvVars` of
-- services/control-plane/src/modules/bindings/bindings.service.ts. The object of variables is a
-- list of names with values, in the order in which the names were first set.
pub mod Totals
use mathlib.Core.Option
use absolo_cloud_services.Base.{
  ℕ, String, ◌⧺◌, ◌&&◌, ◌||◌, not, Option, none, some, or_default, ◌==◌, List, [], ◌∷◌,
  if◌then◌else◌,
}
use absolo_cloud_services.Result.{ok}
use absolo_cloud_services.Runtime.Env.{Env}
use absolo_cloud_services.Runtime.Action.{Action, pure, ◌>>=◌, catch, select}
use absolo_cloud_services.Texts.{decimal}
use absolo_cloud_services.Schema.Bindings.{Binding}
use absolo_cloud_services.Schema.Databases.{ManagedDatabase}
use absolo_cloud_services.Schema.Storage.{Bucket}
use absolo_cloud_services.Runtime.Tables.Bindings.{bindings}
use absolo_cloud_services.Databases.Instances.{get_database, decrypt_password}
use absolo_cloud_services.Storage.Buckets.{get_bucket}

abbrev pub EnvVars : Type 0
EnvVars = List (String × String)

-- `envVars[name] = value`
unfoldable pub put : String → String → EnvVars → EnvVars
put name value [] = (name, value) ∷ []
put name value ((n, v) ∷ vars) =
    let rest = put name value vars in if n == name then (n, value) ∷ vars else (n, v) ∷ rest

-- `envVars[name]`
unfoldable pub value_of : String → EnvVars → Option String
value_of name [] = none
value_of name ((n, v) ∷ vars) = let rest = value_of name vars in if n == name then some v else rest

host_of : ManagedDatabase → String
host_of db = or_default db.endpoint_host "localhost"

port_of : ManagedDatabase → ℕ → String
unfolding decimal
port_of db default = decimal (or_default db.endpoint_port default)

unfoldable pub sql_vars : String → String → ManagedDatabase → String → EnvVars → EnvVars
unfolding host_of port_of put
sql_vars prefix proto db password vars = put (prefix ⧺ "_NAME") "app" (
    put (prefix ⧺ "_PASSWORD") password (
      put (prefix ⧺ "_USER") db.master_username (
        put (prefix ⧺ "_PORT") (port_of db 5432) (
          put (prefix ⧺ "_HOST") (host_of db) (
            put (prefix ⧺ "_URL")
              (proto
                ⧺ "://"
                ⧺ db.master_username
                ⧺ ":"
                ⧺ password
                ⧺ "@"
                ⧺ host_of db
                ⧺ ":"
                ⧺ port_of db 5432
                ⧺ "/app")
              vars)))))

unfoldable pub redis_vars : String → ManagedDatabase → String → EnvVars → EnvVars
unfolding host_of port_of put
redis_vars prefix db password vars = put (prefix ⧺ "_PORT") (port_of db 6379) (
    put (prefix ⧺ "_HOST") (host_of db) (
      put (prefix ⧺ "_URL")
        ("redis://:" ⧺ password ⧺ "@" ⧺ host_of db ⧺ ":" ⧺ port_of db 6379 ⧺ "/0") vars))

unfoldable pub database_vars : String → ManagedDatabase → String → EnvVars → EnvVars
unfolding sql_vars redis_vars
database_vars prefix db password vars =
    if db.engine == "postgres" || db.engine == "mysql"
    then sql_vars prefix (if db.engine == "postgres" then "postgresql" else "mysql") db password
        vars
    else if db.engine == "redis"
    then redis_vars prefix db password vars
    else vars

unfoldable pub bucket_vars : String → Bucket → EnvVars → EnvVars
unfolding put
bucket_vars prefix bucket vars = put (prefix ⧺ "_REGION") bucket.region (
    put (prefix ⧺ "_ENDPOINT") ("https://s3." ⧺ bucket.region ⧺ ".absolo.app")
      (put (prefix ⧺ "_BUCKET") bucket.slug vars))

module _ ⦃env : Env⦄ where
  -- `db.masterPasswordEnc ? decryptPassword(db.masterPasswordEnc) : ''`
  abbrev pub password_of : ManagedDatabase → String
  password_of db =
      let encrypted = or_default db.master_password_enc "" in
      if encrypted == "" then "" else decrypt_password encrypted

  -- The variables of a binding, added to those before it: a resource that is not there adds none.
  unfoldable pub inject_one : Binding → EnvVars → Action EnvVars
  unfolding database_vars bucket_vars
  inject_one binding vars s =
      if not binding.auto_inject
      then (ok vars, s)
      else if binding.resource_type == "database"
      then catch
          (do
            db ← get_database binding.resource_id
            pure (database_vars binding.env_prefix db (password_of db) vars))
          (λ _. pure vars) s
      else if binding.resource_type == "bucket"
      then catch
          (do
            bucket ← get_bucket binding.resource_id
            pure (bucket_vars binding.env_prefix bucket vars))
          (λ _. pure vars) s
      else (ok vars, s)

  unfoldable pub inject : List Binding → EnvVars → Action EnvVars
  unfolding inject_one
  inject [] vars s = (ok vars, s)
  inject (binding ∷ rows) vars s = (inject_one binding vars >>= λ more. inject rows more) s

  unfoldable pub get_injected_env_vars : String → Action EnvVars
  unfolding inject
  get_injected_env_vars app_id = do
    rows ← select bindings (λ r. r.app_id == app_id && r.status == "active")
    inject rows []
