-- ===== src/Schema/Bindings.antt =====
-- The rows of the `bindings` tables of services/control-plane/src/db/schema.ts.
use absolo_cloud_services.Base.{ℕ, String, Bool}

pub record Binding : Type 0 where
  pub id : String
  pub app_id : String
  pub resource_type : String
  pub resource_id : String
  pub env_prefix : String
  pub auto_inject : Bool
  pub status : String
  pub created_at : ℕ
