-- ===== src/Runtime/Cluster.antt =====
-- What the control plane sends to Kubernetes, with the fields that the code computes: the custom
-- resources of the operators for a database, and the deployment and the service of an app.
use absolo_cloud_services.Base.{ℕ, String, Option}

pub record Specs : Type 0 where
  pub cpu : String
  pub memory : String

pub data OperatorCr : Type 0 where
  postgres_cluster :
      (name namespace : String)
      → (instances : ℕ) → (owner storage : String) → (requests limits : Specs) → OperatorCr
  percona_cluster :
      (name namespace : String) → (size : ℕ) → (requests : Specs) → (storage : String) → OperatorCr
  redis_failover :
      (name namespace : String) → (replicas : ℕ) → (requests : Specs) → (sentinels : ℕ) → OperatorCr

pub record AppDeployment : Type 0 where
  pub name : String
  pub namespace : String
  pub app_label : String
  pub deployment_label : Option String
  pub replicas : ℕ
  pub image : String

pub record AppService : Type 0 where
  pub name : String
  pub namespace : String
  -- `spec.selector.app`
  pub selector : String
