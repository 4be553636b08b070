-- ===== src/Databases/Instances.antt =====
-- The life of a database: `listDatabases`, `getDatabase`, `provisionDatabase`, `scaleDatabase`,
-- `deleteDatabase`, `rotateCredentials`, the parameter groups and the encoding of passwords in
-- services/control-plane/src/modules/databases/databases.service.ts.
pub mod Lifecycle
pub mod Credentials
pub mod Provision
use absolo_cloud_services.Base.{
  ℕ, String, ◌⧺◌, Bool, ◌&&◌, not, Option, none, some, is_some, ◌==◌, ltb, List, [], ◌∷◌,
  if◌then◌else◌,
}
use absolo_cloud_services.Result.{ok, Error, not_found}
use absolo_cloud_services.Runtime.Env.{Env}
use absolo_cloud_services.Runtime.Action.{
  Action, pure, ◌>>=◌, ◌>>◌, when, or_throw, catch, transaction, next, respond, now, new_id, select,
  select_first, insert, update,
}
use absolo_cloud_services.Texts.{first_chars, to_lower, remove_first}
use absolo_cloud_services.Schema.Json.{Json, Value}
use absolo_cloud_services.Schema.Databases.{ManagedDatabase, MaintenanceWindow, ParameterGroup}
use absolo_cloud_services.Runtime.Tables.Databases.{
  managed_databases, maintenance_windows, parameter_groups,
}
use absolo_cloud_services.Outbox.{publish, create_saga}

pub record ProvisionOptions : Type 0 where
  pub org_id : String
  pub project_id : String
  pub environment_id : Option String
  pub name : String
  pub engine : String
  pub version : String
  pub size : String
  pub ha : Bool
  pub region : String
  pub storage_gb : ℕ

-- `id.replace('mdb_', '').toLowerCase().slice(0, n)`
abbrev pub short_id : String → ℕ → String
short_id id n = first_chars n (to_lower (remove_first "mdb_" id))

abbrev pub namespace_of : String → String
namespace_of id = "db-" ⧺ short_id id 20

abbrev pub cr_name_of : String → String → String
cr_name_of engine id = engine ⧺ "-" ⧺ short_id id 16

abbrev pub database_row : ProvisionOptions → String → String → ℕ → ManagedDatabase
database_row opts id password_enc at = record {
  id = id;
  org_id = opts.org_id;
  project_id = opts.project_id;
  environment_id = opts.environment_id;
  name = opts.name;
  engine = opts.engine;
  version = opts.version;
  size = opts.size;
  ha = opts.ha;
  region = opts.region;
  storage_gb = opts.storage_gb;
  status = "provisioning";
  endpoint_host = none;
  endpoint_port = none;
  master_username = "absolo";
  master_password_enc = some password_enc;
  k8s_namespace = some (namespace_of id);
  k8s_cr_name = some (cr_name_of opts.engine id);
  created_at = at;
  updated_at = at;
  deleted_at = none;
}

abbrev pub default_window : String → MaintenanceWindow
default_window id = record { database_id = id; day_of_week = 0; hour_utc = 4; duration_min = 60 }

abbrev pub provision_context : ProvisionOptions → String → Json
provision_context opts id = Json.object (
    ("databaseId", Value.str id)
    ∷ ("engine", Value.str opts.engine)
    ∷ ("version", Value.str opts.version)
    ∷ ("namespace", Value.str (namespace_of id))
    ∷ ("crName", Value.str (cr_name_of opts.engine id))
    ∷ [])

abbrev pub provision_request : ProvisionOptions → String → Json
provision_request opts id = Json.object (
    ("databaseId", Value.str id)
    ∷ ("orgId", Value.str opts.org_id)
    ∷ ("engine", Value.str opts.engine)
    ∷ ("version", Value.str opts.version)
    ∷ ("size", Value.str opts.size)
    ∷ ("ha", Value.bool opts.ha)
    ∷ ("storageGb", Value.num opts.storage_gb)
    ∷ [])

abbrev pub database_not_found : String → Error
database_not_found id = not_found ("Database " ⧺ id ⧺ " not found")

-- `if (newStorageGb && newStorageGb > db.storageGb)`
abbrev pub grown : Option ℕ → ℕ → ℕ
grown none old = old
grown (some new) old = if ltb 0 new && ltb old new then new else old

abbrev pub scaled : ManagedDatabase → String → Option ℕ → ℕ → ManagedDatabase → ManagedDatabase
scaled db size storage_gb at r = record r {
  size = size;
  status = "scaling";
  updated_at = at;
  storage_gb =
      if ltb db.storage_gb (grown storage_gb db.storage_gb)
      then grown storage_gb db.storage_gb
      else r.storage_gb;
}

module _ ⦃env : Env⦄ where
  abbrev pub encrypt_password : String → String
  encrypt_password password = env.base64_encode password

  abbrev pub decrypt_password : String → String
  decrypt_password encrypted = env.base64_decode encrypted

  abbrev pub new_password : Action String
  new_password = next (λ n. env.random_bytes n 24 "base64url")

  abbrev pub list_databases : String → Action (List ManagedDatabase)
  list_databases org_id = do
    rows ← select managed_databases (λ r. r.org_id == org_id && not (is_some r.deleted_at))
    pure (env.order_by_desc (λ r. r.created_at) rows)

  abbrev pub get_database : String → Action ManagedDatabase
  get_database id = do
    db ← select_first managed_databases (λ r. r.id == id)
    or_throw (database_not_found id) db

  -- The body of the transaction.
  pub store_database : ProvisionOptions → String → String → Action ManagedDatabase
  unfolding publish create_saga
  store_database opts id password_enc = do
    at ← now
    insert managed_databases (database_row opts id password_enc at)
    insert maintenance_windows (default_window id)
    create_saga "DATABASE_PROVISION" (provision_context opts id)
    publish "database.provision.requested" (provision_request opts id)
    pure (database_row opts id password_enc at)

  unfoldable pub provision_database : ProvisionOptions → Action ManagedDatabase
  unfolding store_database first_chars to_lower remove_first
  provision_database opts = do
    id ← new_id "mdb"
    password ← new_password
    transaction (store_database opts id (encrypt_password password))

  pub apply_scale : String → String → Option ℕ → ManagedDatabase → Action ManagedDatabase
  apply_scale id size storage_gb db = do
    at ← now
    update managed_databases (λ r. r.id == id) (scaled db size storage_gb at)
    pure (scaled db size storage_gb at db)

  unfoldable pub scale_database : String → String → Option ℕ → Action ManagedDatabase
  unfolding apply_scale
  scale_database id size storage_gb = do db ← get_database id; apply_scale id size storage_gb db

  -- A failure of the cluster is logged only.
  pub drop_namespace : Option String → Action (Unit {0})
  drop_namespace none s = (ok tt, s)
  drop_namespace (some namespace) s =
      when (env.has_cluster && not (namespace == ""))
        (catch (respond (λ n. env.delete_namespace n namespace)) (λ _. pure tt)) s

  pub remove_database : String → ManagedDatabase → Action (Unit {0})
  unfolding drop_namespace
  remove_database id db = do
    at ← now
    update managed_databases (λ r. r.id == id)
        (λ r. record r { status = "deleting"; updated_at = at })
    drop_namespace db.k8s_namespace
    deleted ← now
    updated ← now
    update managed_databases (λ r. r.id == id)
        (λ r. record r { status = "deleted"; deleted_at = some deleted; updated_at = updated })

  unfoldable pub delete_database : String → Action (Unit {0})
  unfolding remove_database
  delete_database id = do db ← get_database id; remove_database id db

  unfoldable pub rotate_credentials : String → Action String
  rotate_credentials database_id = do
    get_database database_id
    password ← new_password
    at ← now
    update managed_databases (λ r. r.id == database_id)
        (λ r. record r { master_password_enc = some (encrypt_password password); updated_at = at })
    pure password

  abbrev pub list_parameter_groups : String → Action (List ParameterGroup)
  list_parameter_groups engine = select parameter_groups (λ r. r.engine == engine)

  abbrev pub set_parameter_group : String → String → Action (Unit {0})
  set_parameter_group database_id parameter_group_id = do get_database database_id; pure tt
