-- ===== src/Bindings/Binding.antt =====
-- `bindResource`, `unbindResource` and `listBindings` of
-- services/control-plane/src/modules/bindings/bindings.service.ts.
pub mod Once
use absolo_cloud_services.Base.{
  ℕ, String, ◌⧺◌, Bool, true, ◌&&◌, Option, none, some, or_default, ◌==◌, ltb, List, [], ◌∷◌,
  length, if◌then◌else◌,
}
use absolo_cloud_services.Result.{ok, err, not_found, conflict}
use absolo_cloud_services.Runtime.Env.{Env}
use absolo_cloud_services.Runtime.Action.{
  Action, pure, ◌>>=◌, ◌>>◌, or_throw, catch, now, new_id, select, select_first, insert, delete,
}
use absolo_cloud_services.Texts.{first_chars, remove_first}
use absolo_cloud_services.Schema.Bindings.{Binding}
use absolo_cloud_services.Schema.Databases.{ManagedDatabase}
use absolo_cloud_services.Schema.Storage.{Bucket}
use absolo_cloud_services.Runtime.Tables.Bindings.{bindings}
use absolo_cloud_services.Databases.Instances.{get_database}
use absolo_cloud_services.Databases.Users.{create_database_user}
use absolo_cloud_services.Storage.Buckets.{get_bucket}
use absolo_cloud_services.Storage.AccessKeys.{create_access_key}

pub record BindOptions : Type 0 where
  pub app_id : String
  pub resource_type : String
  pub resource_id : String
  pub env_prefix : Option String

-- `ENGINE_PREFIX[engine]`
abbrev pub engine_prefix : String → Option String
engine_prefix engine =
    if engine == "postgres"
    then some "DATABASE"
    else if engine == "mysql"
    then some "MYSQL"
    else if engine == "redis"
    then some "REDIS"
    else none

abbrev pub app_username : String → String
app_username app_id = "app_" ⧺ first_chars 16 (remove_first "app_" app_id)

abbrev pub is_bound : BindOptions → Binding → Bool
is_bound opts r =
    r.app_id == opts.app_id
    && r.resource_type == opts.resource_type
    && r.resource_id == opts.resource_id

abbrev pub binding_row : BindOptions → String → String → ℕ → Binding
binding_row opts env_prefix id at = record {
  id = id;
  app_id = opts.app_id;
  resource_type = opts.resource_type;
  resource_id = opts.resource_id;
  env_prefix = env_prefix;
  auto_inject = true;
  status = "active";
  created_at = at;
}

-- What a binding is enriched with.
pub data Resource : Type 0 where
  no_resource : Resource
  database : ManagedDatabase → Resource
  bucket : Bucket → Resource

module _ ⦃env : Env⦄ where
  bind_database : BindOptions → Action String
  unfolding create_database_user first_chars remove_first
  bind_database opts = do
    db ← get_database opts.resource_id
    create_database_user opts.resource_id (app_username opts.app_id) "app" (some opts.app_id)
    pure (or_default opts.env_prefix (or_default (engine_prefix db.engine) "DATABASE"))

  bind_bucket : BindOptions → Action String
  unfolding create_access_key
  bind_bucket opts = do
    get_bucket opts.resource_id
    create_access_key (record {
      owner_kind = "app";
      owner_id = opts.app_id;
      scope = "bucket";
      bucket_id = some opts.resource_id;
    })
    pure (or_default opts.env_prefix "S3")

  -- The credentials of the app and the prefix of its variables.
  pub credentials : BindOptions → Action String
  unfolding bind_database bind_bucket
  credentials opts s =
      if opts.resource_type == "database"
      then bind_database opts s
      else if opts.resource_type == "bucket"
      then bind_bucket opts s
      else (err (not_found ("Unknown resource type: " ⧺ opts.resource_type)), s)

  pub store_binding : BindOptions → String → Action Binding
  store_binding opts env_prefix = do
    id ← new_id "bnd"
    at ← now
    insert bindings (binding_row opts env_prefix id at)
    pure (binding_row opts env_prefix id at)

  pub refuse_or_bind : BindOptions → List Binding → Action Binding
  unfolding credentials store_binding
  refuse_or_bind opts existing s =
      if ltb 0 (length existing)
      then (err (conflict "Resource is already bound to this app"), s)
      else (credentials opts >>= store_binding opts) s

  unfoldable pub bind_resource : BindOptions → Action Binding
  unfolding refuse_or_bind
  bind_resource opts = do existing ← select bindings (is_bound opts); refuse_or_bind opts existing

  abbrev pub unbind_resource : String → Action (Unit {0})
  unbind_resource binding_id = do
    binding ← select_first bindings (λ r. r.id == binding_id)
    or_throw (not_found ("Binding " ⧺ binding_id ⧺ " not found")) binding
    delete bindings (λ r. r.id == binding_id)

  -- A resource that is not there is no resource.
  unfoldable pub resource_of : Binding → Action Resource
  resource_of binding s =
      if binding.resource_type == "database"
      then catch (do db ← get_database binding.resource_id; pure (Resource.database db))
          (λ _. pure Resource.no_resource) s
      else if binding.resource_type == "bucket"
      then catch (do found ← get_bucket binding.resource_id; pure (Resource.bucket found))
          (λ _. pure Resource.no_resource) s
      else (ok Resource.no_resource, s)

  pub enrich : List Binding → Action (List (Binding × Resource))
  unfolding resource_of
  enrich [] s = (ok [], s)
  enrich (binding ∷ rows) s =
      (do resource ← resource_of binding; rest ← enrich rows; pure ((binding, resource) ∷ rest)) s

  unfoldable pub list_bindings : String → Action (List (Binding × Resource))
  unfolding enrich
  list_bindings app_id = do rows ← select bindings (λ r. r.app_id == app_id); enrich rows
