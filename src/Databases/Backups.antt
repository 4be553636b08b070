-- ===== src/Databases/Backups.antt =====
-- Backups: services/control-plane/src/modules/databases/databases-backup.service.ts.
use absolo_cloud_services.Base.{ℕ, String, ◌⧺◌, none, some, ◌==◌, List}
use absolo_cloud_services.Result.{not_found}
use absolo_cloud_services.Runtime.Env.{Env}
use absolo_cloud_services.Runtime.Action.{
  Action, pure, ◌>>=◌, ◌>>◌, or_throw, now, new_id, select, select_first, insert, update,
}
use absolo_cloud_services.Schema.Databases.{Backup}
use absolo_cloud_services.Runtime.Tables.Databases.{managed_databases, database_backups}
use absolo_cloud_services.Databases.Instances.{get_database}

abbrev pub backup_row : String → String → String → ℕ → Backup
backup_row id database_id kind at = record {
  id = id;
  database_id = database_id;
  kind = kind;
  status = "running";
  started_at = at;
  completed_at = none;
  size_bytes = none;
  location_url = none;
  created_at = at;
}

pub record RestoreRequest : Type 0 where
  pub message : String
  pub backup_id : String
  pub source_engine : String
  pub source_version : String
  pub new_name : String

abbrev pub completed : ℕ → String → ℕ → Backup → Backup
completed size_bytes location_url at r = record r {
  status = "completed";
  completed_at = some at;
  size_bytes = some size_bytes;
  location_url = some location_url;
}

abbrev pub failed : ℕ → Backup → Backup
failed at r = record r { status = "failed"; completed_at = some at }

module _ ⦃env : Env⦄ where
  pub start_backup : String → String → Action Backup
  start_backup database_id kind = do
    id ← new_id "bak"
    at ← now
    insert database_backups (backup_row id database_id kind at)
    pure (backup_row id database_id kind at)

  unfoldable pub create_backup : String → String → Action Backup
  unfolding start_backup
  create_backup database_id kind = do get_database database_id; start_backup database_id kind

  abbrev pub list_backups : String → Action (List Backup)
  list_backups database_id = do
    rows ← select database_backups (λ r. r.database_id == database_id)
    pure (env.order_by_desc (λ r. r.created_at) rows)

  abbrev pub get_backup : String → Action Backup
  get_backup backup_id = do
    backup ← select_first database_backups (λ r. r.id == backup_id)
    or_throw (not_found ("Backup " ⧺ backup_id ⧺ " not found")) backup

  unfoldable pub complete_backup : String → ℕ → String → Action (Unit {0})
  complete_backup backup_id size_bytes location_url = do
    at ← now
    update database_backups (λ r. r.id == backup_id) (completed size_bytes location_url at)

  unfoldable pub fail_backup : String → Action (Unit {0})
  fail_backup backup_id = do at ← now; update database_backups (λ r. r.id == backup_id) (failed at)

  abbrev pub restore_from_backup : String → String → Action RestoreRequest
  restore_from_backup backup_id new_name = do
    backup ← get_backup backup_id
    found ← select_first managed_databases (λ r. r.id == backup.database_id)
    source ← or_throw (not_found "Source database not found") found
    pure (record {
      message = "Restore initiated";
      backup_id = backup_id;
      source_engine = source.engine;
      source_version = source.version;
      new_name = new_name;
    })
