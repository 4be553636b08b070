-- ===== src/Tests/Rows.antt =====
-- Sample rows of resources: a database with a user, a bucket with a key, a binding and a deployment.
use absolo_cloud_services.Base.{true, false, none, some}
use absolo_cloud_services.Tests.Concrete.{list_env}
use absolo_cloud_services.Schema.Compute.{Deployment}
use absolo_cloud_services.Schema.Databases.{ManagedDatabase, DatabaseUser}
use absolo_cloud_services.Schema.Storage.{Bucket, AccessKey}
use absolo_cloud_services.Schema.Bindings.{Binding}

abbrev pub database : ManagedDatabase
database = record {
  id = "mdb_1";
  org_id = "org_1";
  project_id = "prj_1";
  environment_id = none;
  name = "main";
  engine = "postgres";
  version = "16";
  size = "s";
  ha = true;
  region = "eu-central";
  storage_gb = 10;
  status = "running";
  endpoint_host = none;
  endpoint_port = none;
  master_username = "absolo";
  master_password_enc = some "secret";
  k8s_namespace = some "db-1";
  k8s_cr_name = some "postgres-1";
  created_at = 0;
  updated_at = 0;
  deleted_at = none;
}

abbrev pub bucket : Bucket
bucket = record {
  id = "bkt_1";
  org_id = "org_1";
  project_id = "prj_1";
  region = "eu-central";
  name = "files";
  slug = "files";
  public_read = false;
  versioning = false;
  created_at = 0;
  deleted_at = none;
}

abbrev pub access_key : AccessKey
access_key = record {
  id = "key_1";
  owner_kind = "org";
  owner_id = "org_1";
  scope = "bucket";
  bucket_id = some "bkt_1";
  access_key = "ak_1";
  secret_hash = "s";
  last_used_at = none;
  created_at = 0;
}

abbrev pub binding : Binding
binding = record {
  id = "bnd_1";
  app_id = "app_1";
  resource_type = "database";
  resource_id = "mdb_1";
  env_prefix = "DATABASE";
  auto_inject = true;
  status = "active";
  created_at = 0;
}

abbrev pub deployment : Deployment
deployment = record {
  id = "dep_1";
  app_id = "app_1";
  version_id = "v0";
  source_commit_sha = none;
  build_log_url = none;
  status = "building";
  traffic_pct = 0;
  started_at = none;
  finished_at = none;
  created_at = 0;
}

abbrev pub database_user : DatabaseUser
database_user = record {
  id = "dbu_1";
  database_id = "mdb_1";
  username = "app_1";
  password_enc = none;
  scope = "app";
  bound_app_id = some "app_1";
  expires_at = none;
  created_at = 0;
}
