-- ===== src/Tests/Concrete.antt =====
-- An instance of the services' parameters: tables are lists, the clock ticks seconds, and third
-- parties answer every call.
use absolo_cloud_services.Base.{
  ℕ, ◌+◌, ◌*◌, String, ◌⧺◌, ◌≡◌, refl, ap, ◌∙◌, Bool, true, ◌&&◌, not, none, some, ◌==◌, ltb, List,
  [], ◌∷◌, count, if◌then◌else◌, arith,
}
use absolo_cloud_services.Result.{ok, err, failure}
use absolo_cloud_services.Runtime.Env.{Env}
use absolo_cloud_services.Runtime.State.{State}
use absolo_cloud_services.Runtime.Stripe.{StripeInvoice, Event, Notice}
use absolo_cloud_services.Schema.Scalars.{string}
use absolo_cloud_services.Schema.Json.{Json}
use absolo_cloud_services.Schema.Iam.{Organization}
use absolo_cloud_services.Texts.{decimal}

abbrev pub update_list : {A : Type 0} → (A → Bool) → (A → A) → List A → List A
update_list p f [] = []
update_list p f (a ∷ l) = (if p a then f a else a) ∷ update_list p f l

abbrev pub delete_list : {A : Type 0} → (A → Bool) → List A → List A
delete_list p [] = []
delete_list p (a ∷ l) = let rest = delete_list p l in if p a then rest else a ∷ rest

abbrev pub insert_desc : {A : Type 0} → (A → ℕ) → A → List A → List A
insert_desc k a [] = a ∷ []
insert_desc k a (b ∷ l) =
    let rest = insert_desc k a l in if ltb (k a) (k b) then b ∷ rest else a ∷ b ∷ l

abbrev pub sort_desc : {A : Type 0} → (A → ℕ) → List A → List A
sort_desc k [] = []
sort_desc k (a ∷ l) = insert_desc k a (sort_desc k l)

pub count-update_list :
    {A : Type 0} (q p : A → Bool) (f : A → A) (l : List A)
    → count q (update_list p f l) ≡ count (λ r. q (if p r then f r else r)) l
count-update_list q p f [] = refl
count-update_list q p f (a ∷ l) =
    ap (λ n. (if q (if p a then f a else a) then 1 else 0) + n) (count-update_list q p f l)

pub count-delete_list :
    {A : Type 0} (q p : A → Bool) (l : List A)
    → count q (delete_list p l) ≡ count (λ r. q r && not (p r)) l
count-delete_list q p [] = refl
count-delete_list q p (a ∷ l) = ground (arith, count-delete_list q p l)

count-insert_desc :
    {A : Type 0} (q : A → Bool) (k : A → ℕ) (a : A) (l : List A)
    → count q (insert_desc k a l) ≡ count q (a ∷ l)
count-insert_desc q k a [] = refl
count-insert_desc q k a (b ∷ l) = ground (arith, count-insert_desc q k a l)

pub count-sort_desc :
    {A : Type 0} (q : A → Bool) (k : A → ℕ) (l : List A) → count q (sort_desc k l) ≡ count q l
count-sort_desc q k [] = refl
count-sort_desc q k (a ∷ l) =
    count-insert_desc q k a (sort_desc k l)
    ∙ ap (λ n. (if q a then 1 else 0) + n) (count-sort_desc q k l)

-- The invoice that the event in the sample texts is about.
abbrev pub sample_invoice : StripeInvoice
sample_invoice = record {
  id = "in_1";
  number = none;
  total = some 900;
  tax = none;
  currency = none;
  period_start = none;
  period_end = none;
  invoice_pdf = some "pdf";
  org_id = some "org_1";
}

abbrev pub sample_event : String → Event
sample_event id = record {
  id = id;
  event_type = "invoice.payment_failed";
  payload = Json.raw "{}";
  notice = Notice.invoice_payment_failed sample_invoice;
}

instance abbrev pub list_env : Env
list_env = record {
  Table = λ A. List A;
  rows = λ t. t;
  insert_into = λ r t. r ∷ t;
  update_where = λ p f t. update_list p f t;
  delete_where = λ p t. delete_list p t;
  order_by_desc = λ k l. sort_desc k l;
  count-insert_into = λ q r t. omega arith;
  count-update_where = λ q p f t. count-update_list q p f t;
  count-delete_where = λ q p t. count-delete_list q p t;
  count-order_by_desc = λ q k l. count-sort_desc q k l;
  clock = λ n. n * 1000;
  ulid = λ n. decimal n;
  random_bytes = λ n k encoding. "r" ⧺ decimal n;
  random_base36 = λ n. "0.x" ⧺ decimal n;
  hmac_sha256_hex = λ k t. "h" ⧺ t;
  sha256_hex = λ t. "s" ⧺ t;
  from_hex = λ t. t;
  base64_encode = λ t. t;
  base64_decode = λ t. t;
  sql_sum = λ n. string (decimal n);
  unique_violation_message = "duplicate key value violates unique constraint";
  foreign_key_violation_message = "violates foreign key constraint";
  argon2_hash = λ n t. "a" ⧺ t;
  argon2_verify = λ h t. h == "a" ⧺ t;
  session_secret = "secret";
  stripe_webhook_secret = "whsec";
  customers_create = λ n. ok (record { id = "cus_" ⧺ decimal n });
  customers_retrieve = λ n id. ok (record { id = id });
  customers_update = λ n. ok tt;
  subscriptions_create = λ n. ok (record {
    id = "sub_s";
    status = "active";
    current_period_start = some 1;
    current_period_end = some 2;
    org_id = none;
  });
  subscriptions_update = λ n. ok tt;
  payment_methods_attach = λ n id. ok (record { id = id; card = none });
  invoices_retrieve = λ n id. ok sample_invoice;
  portal_sessions_create = λ n. ok "https://portal";
  meter_events_create = λ n. ok tt;
  construct_event = λ payload signature secret.
      if signature == secret then ok (sample_event payload) else err (failure "signature");
  has_cluster = true;
  create_namespace = λ n name. ok tt;
  create_object = λ n cr. ok tt;
  delete_namespace = λ n name. err (failure "timeout");
  read_namespace = λ n name. err (failure "not found");
  create_app_namespace = λ n. ok tt;
  read_deployment = λ n name namespace. err (failure "not found");
  replace_deployment = λ n. ok tt;
  create_deployment = λ n. ok tt;
  read_service = λ n name namespace. ok tt;
  replace_service = λ n. ok tt;
  create_service = λ n. ok tt;
  put_route = λ n. ok tt;
  has_routes = true;
  has_bus = true;
  create_certificate = λ n name domain. ok tt;
}

abbrev pub empty : State
empty = record {
  tick = 0;
  calls = [];
  users = [];
  organizations = [];
  memberships = [];
  sessions = [];
  projects = [];
  environments = [];
  outbox = [];
  saga_state = [];
  apps = [];
  deployments = [];
  plans = [];
  subscriptions = [];
  subscription_items = [];
  payment_methods = [];
  invoices = [];
  usage_events = [];
  usage_hourly = [];
  meter_shipments = [];
  tax_profiles = [];
  dunning_state = [];
  credits = [];
  stripe_webhook_events = [];
  managed_databases = [];
  database_users = [];
  database_backups = [];
  maintenance_windows = [];
  parameter_groups = [];
  buckets = [];
  bucket_lifecycle_rules = [];
  access_keys = [];
  bindings = [];
  subdomains = [];
  custom_domains = [];
  enterprise_clusters = [];
  cluster_hosts = [];
  regions = [];
}

abbrev pub org_row : Organization
org_row = record {
  stripe_customer_id = some "cus_1";
  stripe_subscription_id = none;
  spend_cap_limit_cents = some 10000;
  id = "org_1";
  slug = "acme";
  name = "Acme";
  default_region = "eu-central";
  plan = "free";
  created_at = 0;
  updated_at = 0;
  deleted_at = none;
}
