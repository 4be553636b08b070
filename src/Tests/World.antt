-- ===== src/Tests/World.antt =====
-- Sample rows: an organization with a member, a project, an app, a database, a bucket and a
-- subscription, and a user who belongs to nothing.
pub use absolo_cloud_services.Tests.Rows.{
  database, bucket, access_key, binding, deployment, database_user,
}
use absolo_cloud_services.Base.{String, false, none, some, [], ◌∷◌}
use absolo_cloud_services.Runtime.State.{State}
use absolo_cloud_services.Tests.Concrete.{list_env, empty, org_row}
use absolo_cloud_services.Schema.Json.{Json}
use absolo_cloud_services.Schema.Iam.{User, Session}
use absolo_cloud_services.Schema.Projects.{Project, Environment}
use absolo_cloud_services.Schema.Compute.{App}
use absolo_cloud_services.Schema.Billing.{Plan, Subscription, PaymentMethod, Invoice}
use absolo_cloud_services.Iam.Auth.{AuthenticatedUser}

abbrev pub user_named : String → String → User
user_named id email = record {
  id = id;
  email = email;
  full_name = "Ada";
  avatar_url = none;
  password_hash = "apw";
  mfa_enabled = false;
  email_verified_at = none;
  locked_at = none;
  created_at = 0;
  updated_at = 0;
}

abbrev pub session_row : Session
session_row = record {
  id = "ses_1";
  user_id = "usr_1";
  refresh_token_hash = "htok";
  user_agent = none;
  ip = none;
  expires_at = 1000000;
  revoked_at = none;
  last_seen_at = 0;
  created_at = 0;
}

abbrev pub project : Project
project = record {
  id = "prj_1";
  org_id = "org_1";
  slug = "web";
  name = "Web";
  description = "";
  kind = "app";
  status = "active";
  region = "eu-central";
  created_at = 0;
  updated_at = 0;
  deleted_at = none;
}

abbrev pub environment : Environment
environment = record {
  id = "env_1";
  project_id = "prj_1";
  slug = "production";
  name = "Production";
  kind = "production";
  status = "active";
  auto_sleep_after_minutes = none;
  current_deployment_id = none;
  created_at = 0;
  updated_at = 0;
  deleted_at = none;
}

abbrev pub app : App
app = record {
  id = "app_1";
  environment_id = "env_1";
  slug = "api";
  source_kind = "git";
  source_ref = "main";
  default_branch = none;
  build_spec = none;
  runtime_spec = none;
  created_at = 0;
  updated_at = 0;
  deleted_at = none;
}

abbrev pub plan : Plan
plan = record {
  id = "pln_1";
  code = "pro";
  name = "Pro";
  monthly_anchor_cents = 2000;
  included_units = Json.object [];
  display_order = 1;
  archived_at = none;
  created_at = 0;
  updated_at = 0;
}

abbrev pub subscription : Subscription
subscription = record {
  id = "sub_1";
  org_id = "org_1";
  plan_id = "pln_1";
  stripe_subscription_id = some "stripe_sub_1";
  status = "active";
  current_period_start = some 0;
  current_period_end = some 1000;
  canceled_at = none;
  created_at = 0;
  updated_at = 0;
}

abbrev pub payment_method : PaymentMethod
payment_method = record {
  id = "pm_1";
  org_id = "org_1";
  stripe_pm_id = "stripe_pm_1";
  brand = none;
  last4 = none;
  exp_month = none;
  exp_year = none;
  is_default = false;
  created_at = 0;
}

abbrev pub invoice : Invoice
invoice = record {
  id = "inv_1";
  org_id = "org_1";
  stripe_invoice_id = some "in_1";
  number = none;
  status = "paid";
  total_cents = 900;
  tax_cents = 0;
  currency = "usd";
  period_start = none;
  period_end = none;
  pdf_url = none;
  paid_at = none;
  created_at = 0;
}

abbrev pub world : State
world = record empty {
  users = user_named "usr_1" "ada@acme.io" ∷ user_named "usr_2" "eve@evil.io" ∷ [];
  organizations = org_row ∷ [];
  memberships = record { user_id = "usr_1"; org_id = "org_1"; role = "owner"; joined_at = 0 } ∷ [];
  sessions = session_row ∷ [];
  projects = project ∷ [];
  environments = environment ∷ [];
  apps = app ∷ [];
  deployments = deployment ∷ [];
  database_users = database_user ∷ [];
  plans = plan ∷ [];
  subscriptions = subscription ∷ [];
  payment_methods = payment_method ∷ [];
  invoices = invoice ∷ [];
  managed_databases = database ∷ [];
  buckets = bucket ∷ [];
  access_keys = access_key ∷ [];
  bindings = binding ∷ [];
}

abbrev pub signed_in : String → AuthenticatedUser
signed_in id = record { id = id; email = "ada@acme.io"; full_name = "Ada"; session_id = "ses_1" }
