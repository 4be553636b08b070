-- ===== src/Schema/Compute.antt =====
-- The rows of the `compute` tables of services/control-plane/src/db/schema.ts.
use absolo_cloud_services.Base.{ℕ, String, Option}
use absolo_cloud_services.Schema.Json.{Json}

pub record App : Type 0 where
  pub id : String
  pub environment_id : String
  pub slug : String
  pub source_kind : String
  pub source_ref : String
  pub default_branch : Option String
  pub build_spec : Option Json
  pub runtime_spec : Option Json
  pub created_at : ℕ
  pub updated_at : ℕ
  pub deleted_at : Option ℕ

pub record Deployment : Type 0 where
  pub id : String
  pub app_id : String
  pub version_id : String
  pub source_commit_sha : Option String
  pub build_log_url : Option String
  pub status : String
  pub traffic_pct : ℕ
  pub started_at : Option ℕ
  pub finished_at : Option ℕ
  pub created_at : ℕ
