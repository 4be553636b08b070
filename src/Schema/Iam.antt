-- ===== src/Schema/Iam.antt =====
-- The rows of the `iam` tables of services/control-plane/src/db/schema.ts.
use absolo_cloud_services.Base.{ℕ, String, Bool, Option}

pub record User : Type 0 where
  pub id : String
  pub email : String
  pub full_name : String
  pub avatar_url : Option String
  pub password_hash : String
  pub mfa_enabled : Bool
  pub email_verified_at : Option ℕ
  pub locked_at : Option ℕ
  pub created_at : ℕ
  pub updated_at : ℕ

pub record Organization : Type 0 where
  pub stripe_customer_id : Option String
  pub stripe_subscription_id : Option String
  pub spend_cap_limit_cents : Option ℕ
  pub id : String
  pub slug : String
  pub name : String
  pub default_region : String
  pub plan : String
  pub created_at : ℕ
  pub updated_at : ℕ
  pub deleted_at : Option ℕ

pub record Membership : Type 0 where
  pub user_id : String
  pub org_id : String
  pub role : String
  pub joined_at : ℕ

pub record Session : Type 0 where
  pub id : String
  pub user_id : String
  pub refresh_token_hash : String
  pub user_agent : Option String
  pub ip : Option String
  pub expires_at : ℕ
  pub revoked_at : Option ℕ
  pub last_seen_at : ℕ
  pub created_at : ℕ
