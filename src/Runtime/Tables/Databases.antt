-- ===== src/Runtime/Tables/Databases.antt =====
-- What the databases tables of services/control-plane/src/db/schema.ts enforce.
use absolo_cloud_services.Base.{refl, String, Bool, true, ◌&&◌, ◌==◌}
use absolo_cloud_services.Runtime.Env.{Env}
use absolo_cloud_services.Runtime.State.{State}
use absolo_cloud_services.Runtime.Action.{Relation, in_table}
use absolo_cloud_services.Schema.Databases.{
  ManagedDatabase, DatabaseUser, Backup, MaintenanceWindow, ParameterGroup,
}
use absolo_cloud_services.Runtime.Tables.Checks.{found, null_or}
use absolo_cloud_services.Runtime.Tables.Iam.{org_exists}
use absolo_cloud_services.Runtime.Tables.Projects.{project_exists, environment_exists}
use absolo_cloud_services.Runtime.Tables.Compute.{app_exists}

module _ ⦃env : Env⦄ where
  abbrev pub managed_databases : Relation ManagedDatabase
  managed_databases = record {
    read = λ s. s.managed_databases;
    write = λ v s. record s { managed_databases = v };
    clashes = λ r r'. r.id == r'.id;
    refers = λ s r.
        org_exists s r.org_id
        && project_exists s r.project_id
        && null_or (environment_exists s) r.environment_id;
    read-write = λ _ _. refl;
  }

  abbrev pub database_exists : State → String → Bool
  database_exists s id = found (λ r. r.id == id) (in_table managed_databases s)

  abbrev pub database_users : Relation DatabaseUser
  database_users = record {
    read = λ s. s.database_users;
    write = λ v s. record s { database_users = v };
    clashes = λ r r'. r.id == r'.id;
    refers = λ s r. database_exists s r.database_id && null_or (app_exists s) r.bound_app_id;
    read-write = λ _ _. refl;
  }

  abbrev pub database_backups : Relation Backup
  database_backups = record {
    read = λ s. s.database_backups;
    write = λ v s. record s { database_backups = v };
    clashes = λ r r'. r.id == r'.id;
    refers = λ s r. database_exists s r.database_id;
    read-write = λ _ _. refl;
  }

  abbrev pub maintenance_windows : Relation MaintenanceWindow
  maintenance_windows = record {
    read = λ s. s.maintenance_windows;
    write = λ v s. record s { maintenance_windows = v };
    clashes = λ r r'. r.database_id == r'.database_id;
    refers = λ s r. database_exists s r.database_id;
    read-write = λ _ _. refl;
  }

  abbrev pub parameter_groups : Relation ParameterGroup
  parameter_groups = record {
    read = λ s. s.parameter_groups;
    write = λ v s. record s { parameter_groups = v };
    clashes = λ r r'. r.id == r'.id;
    refers = λ _ _. true;
    read-write = λ _ _. refl;
  }
