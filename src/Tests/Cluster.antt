-- ===== src/Tests/Cluster.antt =====
-- The theorems on deployments to the cluster and on domains at sample states.
use absolo_cloud_services.Base.{◌+◌, ◌≡◌, refl, none, some, [], ◌∷◌, count}
use absolo_cloud_services.Result.{err}
use absolo_cloud_services.Tests.Concrete.{list_env}
use absolo_cloud_services.Tests.World.{world, signed_in}
use absolo_cloud_services.Runtime.State.{State}
use absolo_cloud_services.Runtime.Laws.{refusal}
use absolo_cloud_services.Runtime.Tables.Domains.{subdomains, custom_domains}
use absolo_cloud_services.Schema.Domains.{CustomDomain}
use absolo_cloud_services.Domains.{custom_domain_row, handle_allocate, handle_add}
use absolo_cloud_services.Domains.Tenants.{subdomain_at, custom_domain_at, handle_domains_refused}
use absolo_cloud_services.Orchestrator.{DeploymentPayload, deploy_to_k3s}
use absolo_cloud_services.Orchestrator.Calls.{is_announcement}

abbrev payload : DeploymentPayload
payload = record {
  app_id = "app_1";
  deployment_id = some "dep_1";
  image_tag = none;
  saga_id = some "saga_1";
}

-- The namespace, the deployment, the service and the route, then the announcement.
announced_once : count is_announcement (deploy_to_k3s payload world).1.calls ≡ 1
unfolding deploy_to_k3s
announced_once = refl

abbrev acme_domain : CustomDomain
acme_domain = custom_domain_row "dom_7" "acme.io" "app_1" "org_1" 0

abbrev with_domain : State
with_domain = record world { custom_domains = acme_domain ∷ [] }

handle_domains_refused_example :
    (handle_allocate (signed_in "usr_1") "app_1" "acme.io" with_domain ≡ (
      err (refusal subdomains (subdomain_at "app_1" "acme.io" with_domain) with_domain),
      record with_domain { tick = with_domain.tick + 1 + 1 + 1 },
    ))
    × (handle_add (signed_in "usr_1") "app_1" "acme.io" with_domain ≡ (
      err (refusal custom_domains (custom_domain_at "app_1" "acme.io" with_domain) with_domain),
      record with_domain { tick = with_domain.tick + 1 + 1 },
    ))
handle_domains_refused_example =
    handle_domains_refused (signed_in "usr_1") "app_1" "acme.io" with_domain refl
