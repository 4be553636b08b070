-- ===== src/Schema/Projects.antt =====
-- The rows of the `projects` tables of services/control-plane/src/db/schema.ts.
use absolo_cloud_services.Base.{ℕ, String, Option}

pub record Project : Type 0 where
  pub id : String
  pub org_id : String
  pub slug : String
  pub name : String
  pub description : String
  pub kind : String
  pub status : String
  pub region : String
  pub created_at : ℕ
  pub updated_at : ℕ
  pub deleted_at : Option ℕ

pub record Environment : Type 0 where
  pub id : String
  pub project_id : String
  pub slug : String
  pub name : String
  pub kind : String
  pub status : String
  pub auto_sleep_after_minutes : Option ℕ
  pub current_deployment_id : Option String
  pub created_at : ℕ
  pub updated_at : ℕ
  pub deleted_at : Option ℕ
