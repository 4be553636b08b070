-- ===== src/Schema/Storage.antt =====
-- The rows of the `storage` tables of services/control-plane/src/db/schema.ts.
use absolo_cloud_services.Base.{ℕ, String, Bool, Option}

pub record Bucket : Type 0 where
  pub id : String
  pub org_id : String
  pub project_id : String
  pub region : String
  pub name : String
  pub slug : String
  pub public_read : Bool
  pub versioning : Bool
  pub created_at : ℕ
  pub deleted_at : Option ℕ

pub record LifecycleRule : Type 0 where
  pub id : String
  pub bucket_id : String
  pub prefix : String
  pub expire_days : Option ℕ
  pub transition_days : Option ℕ
  pub transition_class : Option String
  pub created_at : ℕ

pub record AccessKey : Type 0 where
  pub id : String
  pub owner_kind : String
  pub owner_id : String
  pub scope : String
  pub bucket_id : Option String
  pub access_key : String
  pub secret_hash : String
  pub last_used_at : Option ℕ
  pub created_at : ℕ
