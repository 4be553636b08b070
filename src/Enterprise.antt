-- ===== src/Enterprise.antt =====
-- Enterprise clusters and the regions of the platform:
-- services/control-plane/src/modules/enterprise/enterprise.service.ts and
-- modules/platform/platform.service.ts.
use absolo_cloud_services.Base.{ℕ, String, ◌⧺◌, true, Option, none, or_default, ◌==◌, List, []}
use absolo_cloud_services.Result.{not_found}
use absolo_cloud_services.Runtime.Env.{Env}
use absolo_cloud_services.Runtime.Action.{
  Action, pure, ◌>>=◌, ◌>>◌, or_throw, next, now, select, select_first, insert,
}
use absolo_cloud_services.Texts.{to_lower}
use absolo_cloud_services.Schema.Enterprise.{EnterpriseCluster, ClusterHost}
use absolo_cloud_services.Schema.Platform.{Region}
use absolo_cloud_services.Runtime.Tables.Enterprise.{enterprise_clusters, cluster_hosts}
use absolo_cloud_services.Runtime.Tables.Platform.{regions}

pub record ClusterParams : Type 0 where
  pub name : String
  pub location : String
  pub region_proxy : Option String
  pub compliance_tags : Option (List String)

abbrev pub cluster_row : String → String → ClusterParams → ℕ → EnterpriseCluster
cluster_row id org_id params at = record {
  id = id;
  org_id = org_id;
  name = params.name;
  location = params.location;
  plan_kind = "byo";
  region_proxy = params.region_proxy;
  total_hosts = 0;
  compliance_tags = or_default params.compliance_tags [];
  onboarding_status = "provisioning";
  contract_start = none;
  contract_end = none;
  created_at = at;
  updated_at = at;
}

abbrev pub host_row : String → String → String → String → ℕ → ClusterHost
host_row id cluster_id fqdn role at = record {
  id = id;
  cluster_id = cluster_id;
  fqdn = fqdn;
  role = role;
  status = "offline";
  agent_version = none;
  created_at = at;
  updated_at = at;
}

module _ ⦃env : Env⦄ where
  unfoldable pub create_cluster : String → ClusterParams → Action EnterpriseCluster
  unfolding to_lower
  create_cluster org_id params = do
    id ← next (λ n. "cluster_" ⧺ to_lower (env.ulid n))
    at ← now
    insert enterprise_clusters (cluster_row id org_id params at)
    pure (cluster_row id org_id params at)

  unfoldable pub list_clusters : String → Action (List EnterpriseCluster)
  list_clusters org_id = select enterprise_clusters (λ r. r.org_id == org_id)

  unfoldable pub add_host : String → String → String → Action ClusterHost
  unfolding to_lower
  add_host cluster_id fqdn role = do
    id ← next (λ n. "host_" ⧺ to_lower (env.ulid n))
    at ← now
    insert cluster_hosts (host_row id cluster_id fqdn role at)
    pure (host_row id cluster_id fqdn role at)

  unfoldable pub list_hosts : String → Action (List ClusterHost)
  list_hosts cluster_id = select cluster_hosts (λ r. r.cluster_id == cluster_id)

  unfoldable pub list_regions : Action (List Region)
  list_regions = select regions (λ _. true)

  unfoldable pub get_region : String → Action Region
  get_region code = do
    region ← select_first regions (λ r. r.code == code)
    or_throw (not_found ("Region " ⧺ code ⧺ " not found")) region
