-- ===== src/Tests/Resources.antt =====
-- The theorems of Apps, Bindings, Storage and Databases at sample states.
use absolo_cloud_services.Base.{
  Bool, true, [], ◌∷◌, ltb, ◌⧺◌, ◌≤◌, ◌≡◌, refl, ◌⊎◌, false, ◌&&◌, not, none, some, is_some,
  some_eq, or_default, ◌==◌, count, if◌then◌else◌, arith,
}
use absolo_cloud_services.Result.{not_found, ok, err, is_ok, Error, conflict}
use absolo_cloud_services.Runtime.Action.{in_table}
use absolo_cloud_services.Texts.{decimal}
use absolo_cloud_services.Tests.Concrete.{list_env}
use absolo_cloud_services.Tests.World.{world, database}
use absolo_cloud_services.Runtime.Tables.Bindings.{bindings}
use absolo_cloud_services.Runtime.Tables.Storage.{buckets, access_keys}
use absolo_cloud_services.Runtime.Tables.Databases.{managed_databases}
use absolo_cloud_services.Schema.Compute.{Deployment}
use absolo_cloud_services.Schema.Databases.{ManagedDatabase}
use absolo_cloud_services.Runtime.Tables.Databases.{database_users}
use absolo_cloud_services.Apps.{update_deployment_status}
use absolo_cloud_services.Apps.Status.{Reported, update_deployment_status_announces}
use absolo_cloud_services.Databases.Instances.{ProvisionOptions, provision_database}
use absolo_cloud_services.Databases.Instances.Provision.{Provisioned, provision_database_atomic}
use absolo_cloud_services.Databases.Users.{is_user, delete_database_user}
use absolo_cloud_services.Databases.Users.Deletion.{delete_database_user_gone}
use absolo_cloud_services.Storage.Buckets.{BucketOptions, has_slug, create_bucket}
use absolo_cloud_services.Storage.Buckets.Slugs.{HasDistinctSlugs, create_bucket_slugs}
use absolo_cloud_services.Apps.{deploy_app}
use absolo_cloud_services.Apps.Deployments.{Queued, deploy_app_atomic}
use absolo_cloud_services.Bindings.Binding.{BindOptions, is_bound, bind_resource}
use absolo_cloud_services.Bindings.Binding.Once.{bind_resource_once}
use absolo_cloud_services.Runtime.State.{State}
use absolo_cloud_services.Schema.Bindings.{Binding}
use absolo_cloud_services.Storage.Buckets.{bucket_not_found, delete_bucket}
use absolo_cloud_services.Storage.Buckets.Deletion.{delete_bucket_gone}
use absolo_cloud_services.Databases.Instances.{
  database_not_found, get_database, scale_database, delete_database, rotate_credentials,
  decrypt_password,
}
use absolo_cloud_services.Databases.Instances.Lifecycle.{delete_database_gone, scale_database_grows}
use absolo_cloud_services.Databases.Instances.Credentials.{rotate_credentials_round_trip}

deploy_app_atomic_example :
    ((e : Error) × ((deploy_app "app_1" "v1" none world).0 ≡ err e)
      × ((deploy_app "app_1" "v1" none world).1.deployments ≡ world.deployments)
      × ((deploy_app "app_1" "v1" none world).1.saga_state ≡ world.saga_state)
      × ((deploy_app "app_1" "v1" none world).1.outbox ≡ world.outbox))
    ⊎ ((d : Deployment) × ((deploy_app "app_1" "v1" none world).0 ≡ ok d)
        × Queued d world (deploy_app "app_1" "v1" none world).1)
deploy_app_atomic_example = deploy_app_atomic "app_1" "v1" none world

abbrev bind_files : BindOptions
bind_files = record {
  app_id = "app_1";
  resource_type = "bucket";
  resource_id = "bkt_1";
  env_prefix = none;
}

bind_resource_once_example :
    ((1 ≤ count (is_bound bind_files) (in_table bindings world))
      × ((bind_resource bind_files world).0
          ≡ err (conflict "Resource is already bound to this app"))
      × ((bind_resource bind_files world).1 ≡ world))
    ⊎ ((count (is_bound bind_files) (in_table bindings world) ≡ 0)
        × (count (is_bound bind_files) (in_table bindings (bind_resource bind_files world).1)
            ≡ (if is_ok (bind_resource bind_files world).0 then 1 else 0)))
bind_resource_once_example = bind_resource_once bind_files world

abbrev bound_files : Binding
bound_files = record {
  id = "bind_2";
  app_id = "app_1";
  resource_type = "bucket";
  resource_id = "bkt_1";
  env_prefix = "FILES";
  auto_inject = true;
  status = "active";
  created_at = 0;
}

-- A bucket that is gone, and one that is there.
abbrev with_files : State
with_files = record world {
  bindings = record bound_files { resource_id = "bkt_9" } ∷ bound_files ∷ [];
}

delete_bucket_gone_example :
    ((count (λ b. b.id == "bkt_1") (in_table buckets world) ≡ 0)
      × ((delete_bucket "bkt_1" world).0 ≡ err (bucket_not_found "bkt_1"))
      × ((delete_bucket "bkt_1" world).1 ≡ world))
    ⊎ ((1 ≤ count (λ b. b.id == "bkt_1") (in_table buckets world))
        × ((delete_bucket "bkt_1" world).0 ≡ ok tt)
        × (count
              (λ b. b.id == "bkt_1" && not (is_some b.deleted_at))
              (in_table buckets (delete_bucket "bkt_1" world).1)
            ≡ 0)
        × (count
              (λ k. some_eq k.bucket_id "bkt_1")
              (in_table access_keys (delete_bucket "bkt_1" world).1)
            ≡ 0))
delete_bucket_gone_example = delete_bucket_gone "bkt_1" world

delete_database_gone_example :
    ((count (λ d. d.id == "mdb_1") (in_table managed_databases world) ≡ 0)
      × ((delete_database "mdb_1" world).0 ≡ err (database_not_found "mdb_1"))
      × ((delete_database "mdb_1" world).1 ≡ world))
    ⊎ ((1 ≤ count (λ d. d.id == "mdb_1") (in_table managed_databases world))
        × ((delete_database "mdb_1" world).0 ≡ ok tt)
        × (count
              (λ d. d.id == "mdb_1" && not (is_some d.deleted_at && d.status == "deleted"))
              (in_table managed_databases (delete_database "mdb_1" world).1)
            ≡ 0))
delete_database_gone_example = delete_database_gone "mdb_1" world

abbrev larger : ManagedDatabase
larger = record database { size = "m"; status = "scaling"; storage_gb = 20; updated_at = 0 }

scaled_up : (scale_database "mdb_1" "m" (some 20) world).0 ≡ ok larger
unfolding scale_database
scaled_up = refl

scale_database_grows_example :
    (db : ManagedDatabase) × (get_database "mdb_1" world ≡ (ok db, world))
    × (larger.size ≡ "m")
    × (larger.status ≡ "scaling")
    × (db.storage_gb ≤ larger.storage_gb)
    × ((q : ManagedDatabase → Bool)
        → count q (in_table managed_databases (scale_database "mdb_1" "m" (some 20) world).1)
          ≡ count
              (λ r. q (
                if r.id == "mdb_1"
                then record r {
                  size = "m";
                  status = "scaling";
                  storage_gb = if ltb db.storage_gb 20 then 20 else r.storage_gb;
                  updated_at = 0;
                }
                else r))
              (in_table managed_databases world))
scale_database_grows_example =
    scale_database_grows "mdb_1" "m" (some 20) world {db' = larger} scaled_up

rotated : (rotate_credentials "mdb_1" world).0 ≡ ok "r0"
unfolding rotate_credentials decimal
rotated = refl

rotate_credentials_round_trip_example :
    count
      (λ r. r.id == "mdb_1" && not (decrypt_password (or_default r.master_password_enc "") == "r0"))
      (in_table managed_databases (rotate_credentials "mdb_1" world).1)
    ≡ 0
rotate_credentials_round_trip_example =
    rotate_credentials_round_trip "mdb_1" world {password = "r0"} (λ t. refl) rotated

update_deployment_status_announces_example :
    ((e : Error) × ((update_deployment_status "dep_1" "live" none world).0 ≡ err e)
      × ((update_deployment_status "dep_1" "live" none world).1.deployments ≡ world.deployments)
      × ((update_deployment_status "dep_1" "live" none world).1.outbox ≡ world.outbox))
    ⊎ ((d : Deployment) × ((update_deployment_status "dep_1" "live" none world).0 ≡ ok d)
        × Reported "dep_1" "live" none world d
            (update_deployment_status "dep_1" "live" none world).1)
update_deployment_status_announces_example =
    update_deployment_status_announces "dep_1" "live" none world

abbrev cache : ProvisionOptions
cache = record {
  org_id = "org_1";
  project_id = "prj_1";
  environment_id = none;
  name = "cache";
  engine = "redis";
  version = "7";
  size = "xs";
  ha = false;
  region = "eu-central";
  storage_gb = 1;
}

provision_database_atomic_example :
    ((e : Error) × ((provision_database cache world).0 ≡ err e)
      × ((provision_database cache world).1.managed_databases ≡ world.managed_databases)
      × ((provision_database cache world).1.maintenance_windows ≡ world.maintenance_windows)
      × ((provision_database cache world).1.saga_state ≡ world.saga_state)
      × ((provision_database cache world).1.outbox ≡ world.outbox))
    ⊎ ((d : ManagedDatabase) × ((provision_database cache world).0 ≡ ok d)
        × Provisioned d world (provision_database cache world).1)
provision_database_atomic_example = provision_database_atomic cache world

delete_database_user_gone_example :
    ((count (is_user "mdb_1" "dbu_1") (in_table database_users world) ≡ 0)
      × ((delete_database_user "mdb_1" "dbu_1" world).0
          ≡ err (not_found ("User " ⧺ "dbu_1" ⧺ " not found")))
      × ((delete_database_user "mdb_1" "dbu_1" world).1 ≡ world))
    ⊎ ((1 ≤ count (is_user "mdb_1" "dbu_1") (in_table database_users world))
        × ((delete_database_user "mdb_1" "dbu_1" world).0 ≡ ok tt)
        × (count
              (λ u. u.id == "dbu_1")
              (in_table database_users (delete_database_user "mdb_1" "dbu_1" world).1)
            ≡ 0))
delete_database_user_gone_example = delete_database_user_gone "mdb_1" "dbu_1" world

abbrev second_bucket : BucketOptions
second_bucket = record {
  org_id = "org_1";
  project_id = "prj_1";
  name = "logs";
  slug = "logs";
  region = none;
  public_read = none;
  versioning = none;
}

create_bucket_slugs_example :
    (((1 ≤ count (has_slug "org_1" "logs") (in_table buckets world))
        × ((create_bucket second_bucket world).0
            ≡ err (conflict ("Bucket slug \"" ⧺ "logs" ⧺ "\" already exists in this org")))
        × ((create_bucket second_bucket world).1.buckets ≡ world.buckets))
      ⊎ (count (has_slug "org_1" "logs") (in_table buckets world) ≡ 0))
    × HasDistinctSlugs (create_bucket second_bucket world).1
create_bucket_slugs_example = create_bucket_slugs second_bucket world (λ org_id slug. ground arith)
