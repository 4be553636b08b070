-- ===== src/Schema/Domains.antt =====
-- The rows of the `domains` tables of services/control-plane/src/db/schema.ts.
use absolo_cloud_services.Base.{ℕ, String, Option}

pub record Subdomain : Type 0 where
  pub id : String
  pub full_host : String
  pub app_id : Option String
  pub org_id : String
  pub created_at : ℕ

pub record CustomDomain : Type 0 where
  pub id : String
  pub domain_name : String
  pub app_id : Option String
  pub org_id : String
  pub status : String
  pub verified_at : Option ℕ
  pub created_at : ℕ
