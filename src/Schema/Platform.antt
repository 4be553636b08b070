-- ===== src/Schema/Platform.antt =====
-- The rows of the `platform` tables of services/control-plane/src/db/schema.ts.
use absolo_cloud_services.Base.{ℕ, String}
use absolo_cloud_services.Schema.Json.{Json}

pub record Region : Type 0 where
  pub id : String
  pub code : String
  pub name : String
  pub status : String
  pub capabilities : Json
  pub created_at : ℕ
  pub updated_at : ℕ
