-- ===== src/Schema/Mq.antt =====
-- The rows of the `mq` tables of services/control-plane/src/db/schema.ts.
use absolo_cloud_services.Base.{ℕ, String, Option}
use absolo_cloud_services.Schema.Json.{Json}

pub record OutboxEvent : Type 0 where
  pub id : String
  pub topic : String
  pub payload : Json
  pub published_at : Option ℕ
  pub created_at : ℕ

pub record Saga : Type 0 where
  pub id : String
  pub saga_type : String
  pub status : String
  pub context : Json
  pub error : Option String
  pub created_at : ℕ
  pub updated_at : ℕ
