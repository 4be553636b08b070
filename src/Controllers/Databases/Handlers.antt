-- ===== src/Controllers/Databases/Handlers.antt =====
-- The handlers of services/control-plane/src/modules/databases/databases.controller.ts. A body is a
-- value of its declared type, since nothing validates it.
use absolo_cloud_services.Base.{ℕ, String, Bool, false, Option, none, or_default, List}
use absolo_cloud_services.Runtime.Env.{Env}
use absolo_cloud_services.Runtime.State.{State}
use absolo_cloud_services.Schema.Databases.{ManagedDatabase, Backup}
use absolo_cloud_services.Databases.Instances.{
  ProvisionOptions, list_databases, get_database, provision_database, scale_database,
  delete_database, rotate_credentials, set_parameter_group,
}
use absolo_cloud_services.Databases.Users as Users
use absolo_cloud_services.Databases.Backups as Backups
use absolo_cloud_services.Databases.Backups.{RestoreRequest}
use absolo_cloud_services.Controllers.Pipes.{Reply, handled}

pub record CreateDatabaseBody : Type 0 where
  pub org_id : String
  pub name : String
  pub engine : String
  pub version : String
  pub size : Option String
  pub ha : Option Bool
  pub region : Option String
  pub storage_gb : Option ℕ
  pub environment_id : Option String

abbrev pub provision_options : String → CreateDatabaseBody → ProvisionOptions
provision_options project_id body = record {
  org_id = body.org_id;
  project_id = project_id;
  environment_id = body.environment_id;
  name = body.name;
  engine = body.engine;
  version = body.version;
  size = or_default body.size "s";
  ha = or_default body.ha false;
  region = or_default body.region "eu-central";
  storage_gb = or_default body.storage_gb 1;
}

module _ ⦃env : Env⦄ where
  unfoldable pub handle_create_database :
      String → CreateDatabaseBody → State → Reply ManagedDatabase × State
  unfolding provision_database
  handle_create_database project_id body =
      handled (provision_database (provision_options project_id body))

  abbrev pub handle_list_databases : String → State → Reply (List ManagedDatabase) × State
  handle_list_databases org_id = handled (list_databases org_id)

  abbrev pub handle_get_database : String → State → Reply ManagedDatabase × State
  handle_get_database id = handled (get_database id)

  unfoldable pub handle_delete_database : String → State → Reply (Unit {0}) × State
  unfolding delete_database
  handle_delete_database id = handled (delete_database id)

  unfoldable pub handle_scale_database :
      String → String → Option ℕ → State → Reply ManagedDatabase × State
  unfolding scale_database
  handle_scale_database id size storage_gb = handled (scale_database id size storage_gb)

  -- A user for no app; the service's default for the scope is "full".
  unfoldable pub handle_create_user :
      String → String → Option String → State → Reply Users.CreatedUser × State
  unfolding Users.create_database_user
  handle_create_user id username scope =
      handled (Users.create_database_user id username (or_default scope "full") none)

  abbrev pub handle_list_users : String → State → Reply (List Users.UserView) × State
  handle_list_users id = handled (Users.list_database_users id)

  abbrev pub handle_delete_user : String → String → State → Reply (Unit {0}) × State
  handle_delete_user id user_id = handled (Users.delete_database_user id user_id)

  unfoldable pub handle_rotate_credentials : String → State → Reply String × State
  unfolding rotate_credentials
  handle_rotate_credentials id = handled (rotate_credentials id)

  abbrev pub handle_set_parameter_group : String → String → State → Reply (Unit {0}) × State
  handle_set_parameter_group id parameter_group_id =
      handled (set_parameter_group id parameter_group_id)

  -- The service's default for the kind is "snapshot".
  unfoldable pub handle_create_backup : String → Option String → State → Reply Backup × State
  unfolding Backups.create_backup
  handle_create_backup id kind = handled (Backups.create_backup id (or_default kind "snapshot"))

  abbrev pub handle_list_backups : String → State → Reply (List Backup) × State
  handle_list_backups id = handled (Backups.list_backups id)

  -- The database in the path is not looked at.
  abbrev pub handle_restore_from_backup :
      String → (backup_id name : String) → State → Reply RestoreRequest × State
  handle_restore_from_backup id backup_id name =
      handled (Backups.restore_from_backup backup_id name)
