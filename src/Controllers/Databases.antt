-- ===== src/Controllers/Databases.antt =====
-- The routes of services/control-plane/src/modules/databases/databases.controller.ts.
pub mod Handlers
use absolo_cloud_services.Base.{[], ◌∷◌}
use absolo_cloud_services.Controllers.Route.{Route, lit, param}

abbrev pub create_database : Route
create_database = record {
  verb = "POST";
  segments = lit "v1" ∷ lit "projects" ∷ param "projectId" ∷ lit "databases" ∷ [];
}

abbrev pub list_databases : Route
list_databases = record { verb = "GET"; segments = lit "v1" ∷ lit "databases" ∷ [] }

abbrev pub get_database : Route
get_database = record { verb = "GET"; segments = lit "v1" ∷ lit "databases" ∷ param "id" ∷ [] }

abbrev pub delete_database : Route
delete_database = record {
  verb = "DELETE";
  segments = lit "v1" ∷ lit "databases" ∷ param "id" ∷ [];
}

abbrev pub scale_database : Route
scale_database = record {
  verb = "PUT";
  segments = lit "v1" ∷ lit "databases" ∷ param "id" ∷ lit "scale" ∷ [];
}

abbrev pub create_user : Route
create_user = record {
  verb = "POST";
  segments = lit "v1" ∷ lit "databases" ∷ param "id" ∷ lit "users" ∷ [];
}

abbrev pub list_users : Route
list_users = record {
  verb = "GET";
  segments = lit "v1" ∷ lit "databases" ∷ param "id" ∷ lit "users" ∷ [];
}

abbrev pub delete_user : Route
delete_user = record {
  verb = "DELETE";
  segments = lit "v1" ∷ lit "databases" ∷ param "id" ∷ lit "users" ∷ param "userId" ∷ [];
}

abbrev pub rotate_credentials : Route
rotate_credentials = record {
  verb = "POST";
  segments = lit "v1" ∷ lit "databases" ∷ param "id" ∷ lit "credentials" ∷ lit "rotate" ∷ [];
}

abbrev pub set_parameter_group : Route
set_parameter_group = record {
  verb = "PUT";
  segments = lit "v1" ∷ lit "databases" ∷ param "id" ∷ lit "parameter-group" ∷ [];
}

abbrev pub create_backup : Route
create_backup = record {
  verb = "POST";
  segments = lit "v1" ∷ lit "databases" ∷ param "id" ∷ lit "backups" ∷ [];
}

abbrev pub list_backups : Route
list_backups = record {
  verb = "GET";
  segments = lit "v1" ∷ lit "databases" ∷ param "id" ∷ lit "backups" ∷ [];
}

abbrev pub restore_from_backup : Route
restore_from_backup = record {
  verb = "POST";
  segments = lit "v1" ∷ lit "databases" ∷ param "id" ∷ lit "restore" ∷ [];
}
