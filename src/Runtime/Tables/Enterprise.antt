-- ===== src/Runtime/Tables/Enterprise.antt =====
-- What the enterprise tables of services/control-plane/src/db/schema.ts enforce.
use absolo_cloud_services.Base.{String, refl, Bool, ◌==◌}
use absolo_cloud_services.Runtime.Env.{Env}
use absolo_cloud_services.Runtime.State.{State}
use absolo_cloud_services.Runtime.Action.{Relation, in_table}
use absolo_cloud_services.Schema.Enterprise.{EnterpriseCluster, ClusterHost}
use absolo_cloud_services.Runtime.Tables.Checks.{found}
use absolo_cloud_services.Runtime.Tables.Iam.{org_exists}

module _ ⦃env : Env⦄ where
  abbrev pub enterprise_clusters : Relation EnterpriseCluster
  enterprise_clusters = record {
    read = λ s. s.enterprise_clusters;
    write = λ v s. record s { enterprise_clusters = v };
    clashes = λ r r'. r.id == r'.id;
    refers = λ s r. org_exists s r.org_id;
    read-write = λ _ _. refl;
  }

  abbrev pub cluster_exists : State → String → Bool
  cluster_exists s id = found (λ r. r.id == id) (in_table enterprise_clusters s)

  abbrev pub cluster_hosts : Relation ClusterHost
  cluster_hosts = record {
    read = λ s. s.cluster_hosts;
    write = λ v s. record s { cluster_hosts = v };
    clashes = λ r r'. r.id == r'.id;
    refers = λ s r. cluster_exists s r.cluster_id;
    read-write = λ _ _. refl;
  }
