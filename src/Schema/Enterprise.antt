-- ===== src/Schema/Enterprise.antt =====
-- The rows of the `enterprise` tables of services/control-plane/src/db/schema.ts.
use absolo_cloud_services.Base.{ℕ, String, Option, List}

pub record EnterpriseCluster : Type 0 where
  pub id : String
  pub org_id : String
  pub name : String
  pub location : String
  pub plan_kind : String
  pub region_proxy : Option String
  pub total_hosts : ℕ
  pub compliance_tags : List String
  pub onboarding_status : String
  pub contract_start : Option ℕ
  pub contract_end : Option ℕ
  pub created_at : ℕ
  pub updated_at : ℕ

pub record ClusterHost : Type 0 where
  pub id : String
  pub cluster_id : String
  pub fqdn : String
  pub role : String
  pub status : String
  pub agent_version : Option String
  pub created_at : ℕ
  pub updated_at : ℕ
