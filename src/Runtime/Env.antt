-- ===== src/Runtime/Env.antt =====
-- What the services use and this repository does not implement, as one parameter: the Postgres
-- tables behind drizzle-orm, the clock, ulidx, node:crypto, argon2, and the answers of Stripe and of the
-- cluster. A table is a bag of rows: the laws say how many rows pass a test after each statement,
-- whatever order Postgres returns them in.
use absolo_cloud_services.Base.{
  Option, ℕ, ◌+◌, ◌≡◌, String, Bool, ◌&&◌, not, List, count, if◌then◌else◌,
}
use absolo_cloud_services.Schema.Scalars.{Scalar}
use absolo_cloud_services.Result.{Result}
use absolo_cloud_services.Runtime.Cluster.{OperatorCr, AppDeployment}
use absolo_cloud_services.Runtime.Stripe.{
  Customer, StripeSubscription, StripePaymentMethod, StripeInvoice, Event,
}

pub record Env : Type 1 where
  pub Table : Type 0 → Type 0
  -- the rows, in the order in which an unordered `select` returns them
  pub rows : {Row : Type 0} → Table Row → List Row
  pub insert_into : {Row : Type 0} → Row → Table Row → Table Row
  pub update_where : {Row : Type 0} → (Row → Bool) → (Row → Row) → Table Row → Table Row
  pub delete_where : {Row : Type 0} → (Row → Bool) → Table Row → Table Row
  -- `order by … desc`
  pub order_by_desc : {Row : Type 0} → (Row → ℕ) → List Row → List Row
  pub count-insert_into :
      {Row : Type 0} (q : Row → Bool) (r : Row) (t : Table Row)
      → count q (rows (insert_into r t)) ≡ count q (rows t) + (if q r then 1 else 0)
  pub count-update_where :
      {Row : Type 0} (q p : Row → Bool) (f : Row → Row) (t : Table Row)
      → count q (rows (update_where p f t)) ≡ count (λ r. q (if p r then f r else r)) (rows t)
  pub count-delete_where :
      {Row : Type 0} (q p : Row → Bool) (t : Table Row)
      → count q (rows (delete_where p t)) ≡ count (λ r. q r && not (p r)) (rows t)
  pub count-order_by_desc :
      {Row : Type 0} (q : Row → Bool) (k : Row → ℕ) (l : List Row)
      → count q (order_by_desc k l) ≡ count q l
  -- The n-th call of what is not a function: the clock, `ulid()`, `randomBytes(k)` in an
  -- encoding.
  pub clock : ℕ → ℕ
  pub ulid : ℕ → String
  pub random_bytes : ℕ → ℕ → String → String
  -- the n-th `Math.random().toString(36)`
  pub random_base36 : ℕ → String
  pub hmac_sha256_hex : String → String → String
  pub sha256_hex : String → String
  -- `Buffer.from(s, 'hex')`
  pub from_hex : String → String
  pub base64_encode : String → String
  pub base64_decode : String → String
  -- how the driver hands over a `SUM(…)`
  pub sql_sum : ℕ → Scalar
  -- The messages of Postgres' errors.
  pub unique_violation_message : String
  pub foreign_key_violation_message : String
  -- The n-th `argon2.hash`, and `argon2.verify` where a failure counts as a mismatch.
  pub argon2_hash : ℕ → String → String
  pub argon2_verify : String → String → Bool
  pub session_secret : String
  pub stripe_webhook_secret : String
  -- The answers of Stripe to the n-th call.
  pub customers_create : ℕ → Result Customer
  pub customers_retrieve : ℕ → String → Result Customer
  pub customers_update : ℕ → Result (Unit {0})
  pub subscriptions_create : ℕ → Result StripeSubscription
  pub subscriptions_update : ℕ → Result (Unit {0})
  pub payment_methods_attach : ℕ → String → Result StripePaymentMethod
  pub invoices_retrieve : ℕ → String → Result StripeInvoice
  pub portal_sessions_create : ℕ → Result String
  pub meter_events_create : ℕ → Result (Unit {0})
  pub construct_event : String → String → String → Result Event
  -- Whether a Kubernetes client could be loaded, and the answers of the cluster, where
  -- the status 409 is a `conflict`.
  pub has_cluster : Bool
  pub create_namespace : ℕ → String → Result (Unit {0})
  pub create_object : ℕ → OperatorCr → Result (Unit {0})
  pub delete_namespace : ℕ → String → Result (Unit {0})
  -- The answers of the cluster, of the key-value store and of the message bus to the orchestrator, and
  -- whether the latter two are connected.
  pub read_namespace : ℕ → String → Result (Unit {0})
  pub create_app_namespace : ℕ → Result (Unit {0})
  pub read_deployment : ℕ → (name namespace : String) → Result (Option AppDeployment)
  pub replace_deployment : ℕ → Result (Unit {0})
  pub create_deployment : ℕ → Result (Unit {0})
  pub read_service : ℕ → (name namespace : String) → Result (Unit {0})
  pub replace_service : ℕ → Result (Unit {0})
  pub create_service : ℕ → Result (Unit {0})
  pub put_route : ℕ → Result (Unit {0})
  pub has_routes : Bool
  pub has_bus : Bool
  -- The answer of the cluster to a request for a certificate.
  pub create_certificate : ℕ → (name domain : String) → Result (Unit {0})
