-- ===== src/Runtime/Tables/Projects.antt =====
-- What the projects tables of services/control-plane/src/db/schema.ts enforce.
use absolo_cloud_services.Base.{refl, String, Bool, ◌&&◌, ◌||◌, ◌==◌}
use absolo_cloud_services.Runtime.Env.{Env}
use absolo_cloud_services.Runtime.State.{State}
use absolo_cloud_services.Runtime.Action.{Relation, in_table}
use absolo_cloud_services.Schema.Projects.{Project, Environment}
use absolo_cloud_services.Runtime.Tables.Checks.{found}
use absolo_cloud_services.Runtime.Tables.Iam.{org_exists}

module _ ⦃env : Env⦄ where
  abbrev pub projects : Relation Project
  projects = record {
    read = λ s. s.projects;
    write = λ v s. record s { projects = v };
    clashes = λ r r'. r.id == r'.id || (r.org_id == r'.org_id && r.slug == r'.slug);
    refers = λ s r. org_exists s r.org_id;
    read-write = λ _ _. refl;
  }

  abbrev pub project_exists : State → String → Bool
  project_exists s id = found (λ r. r.id == id) (in_table projects s)

  abbrev pub environments : Relation Environment
  environments = record {
    read = λ s. s.environments;
    write = λ v s. record s { environments = v };
    clashes = λ r r'. r.id == r'.id || (r.project_id == r'.project_id && r.slug == r'.slug);
    refers = λ s r. project_exists s r.project_id;
    read-write = λ _ _. refl;
  }

  abbrev pub environment_exists : State → String → Bool
  environment_exists s id = found (λ r. r.id == id) (in_table environments s)
