-- ===== src/Runtime/Tables/Compute.antt =====
-- What the compute tables of services/control-plane/src/db/schema.ts enforce.
use absolo_cloud_services.Base.{refl, String, Bool, ◌&&◌, ◌||◌, ◌==◌}
use absolo_cloud_services.Runtime.Env.{Env}
use absolo_cloud_services.Runtime.State.{State}
use absolo_cloud_services.Runtime.Action.{Relation, in_table}
use absolo_cloud_services.Schema.Compute.{App, Deployment}
use absolo_cloud_services.Runtime.Tables.Checks.{found}
use absolo_cloud_services.Runtime.Tables.Projects.{environment_exists}

module _ ⦃env : Env⦄ where
  abbrev pub apps : Relation App
  apps = record {
    read = λ s. s.apps;
    write = λ v s. record s { apps = v };
    clashes = λ r r'. r.id == r'.id || (r.environment_id == r'.environment_id && r.slug == r'.slug);
    refers = λ s r. environment_exists s r.environment_id;
    read-write = λ _ _. refl;
  }

  abbrev pub app_exists : State → String → Bool
  app_exists s id = found (λ r. r.id == id) (in_table apps s)

  abbrev pub deployments : Relation Deployment
  deployments = record {
    read = λ s. s.deployments;
    write = λ v s. record s { deployments = v };
    clashes = λ r r'. r.id == r'.id;
    refers = λ s r. app_exists s r.app_id;
    read-write = λ _ _. refl;
  }
