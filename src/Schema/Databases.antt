-- ===== src/Schema/Databases.antt =====
-- The rows of the `databases` tables of services/control-plane/src/db/schema.ts.
use absolo_cloud_services.Base.{ℕ, String, Bool, Option}
use absolo_cloud_services.Schema.Json.{Json}

pub record ManagedDatabase : Type 0 where
  pub id : String
  pub org_id : String
  pub project_id : String
  pub environment_id : Option String
  pub name : String
  pub engine : String
  pub version : String
  pub size : String
  pub ha : Bool
  pub region : String
  pub storage_gb : ℕ
  pub status : String
  pub endpoint_host : Option String
  pub endpoint_port : Option ℕ
  pub master_username : String
  pub master_password_enc : Option String
  pub k8s_namespace : Option String
  pub k8s_cr_name : Option String
  pub created_at : ℕ
  pub updated_at : ℕ
  pub deleted_at : Option ℕ

pub record DatabaseUser : Type 0 where
  pub id : String
  pub database_id : String
  pub username : String
  pub password_enc : Option String
  pub scope : String
  pub bound_app_id : Option String
  pub expires_at : Option ℕ
  pub created_at : ℕ

pub record Backup : Type 0 where
  pub id : String
  pub database_id : String
  pub kind : String
  pub status : String
  pub started_at : ℕ
  pub completed_at : Option ℕ
  pub size_bytes : Option ℕ
  pub location_url : Option String
  pub created_at : ℕ

pub record MaintenanceWindow : Type 0 where
  pub database_id : String
  pub day_of_week : ℕ
  pub hour_utc : ℕ
  pub duration_min : ℕ

pub record ParameterGroup : Type 0 where
  pub id : String
  pub engine : String
  pub version : String
  pub name : String
  pub params : Json
  pub is_default : Bool
  pub created_at : ℕ
