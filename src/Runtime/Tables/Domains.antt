-- ===== src/Runtime/Tables/Domains.antt =====
-- What the domains tables of services/control-plane/src/db/schema.ts enforce.
use absolo_cloud_services.Base.{refl, ◌&&◌, ◌||◌, ◌==◌}
use absolo_cloud_services.Runtime.Env.{Env}
use absolo_cloud_services.Runtime.Action.{Relation}
use absolo_cloud_services.Schema.Domains.{Subdomain, CustomDomain}
use absolo_cloud_services.Runtime.Tables.Checks.{null_or}
use absolo_cloud_services.Runtime.Tables.Iam.{org_exists}
use absolo_cloud_services.Runtime.Tables.Compute.{app_exists}

module _ ⦃env : Env⦄ where
  abbrev pub subdomains : Relation Subdomain
  subdomains = record {
    read = λ s. s.subdomains;
    write = λ v s. record s { subdomains = v };
    clashes = λ r r'. r.id == r'.id || r.full_host == r'.full_host;
    refers = λ s r. null_or (app_exists s) r.app_id && org_exists s r.org_id;
    read-write = λ _ _. refl;
  }

  abbrev pub custom_domains : Relation CustomDomain
  custom_domains = record {
    read = λ s. s.custom_domains;
    write = λ v s. record s { custom_domains = v };
    clashes = λ r r'. r.id == r'.id || r.domain_name == r'.domain_name;
    refers = λ s r. null_or (app_exists s) r.app_id && org_exists s r.org_id;
    read-write = λ _ _. refl;
  }
