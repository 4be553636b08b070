-- ===== src/Controllers/Storage.antt =====
-- The routes of services/control-plane/src/modules/storage/storage.controller.ts.
pub mod Handlers
use absolo_cloud_services.Base.{[], ◌∷◌}
use absolo_cloud_services.Controllers.Route.{Route, lit, param}

abbrev pub create_bucket : Route
create_bucket = record {
  verb = "POST";
  segments = lit "v1" ∷ lit "projects" ∷ param "projectId" ∷ lit "buckets" ∷ [];
}

abbrev pub list_buckets : Route
list_buckets = record { verb = "GET"; segments = lit "v1" ∷ lit "buckets" ∷ [] }

abbrev pub get_bucket : Route
get_bucket = record { verb = "GET"; segments = lit "v1" ∷ lit "buckets" ∷ param "id" ∷ [] }

abbrev pub delete_bucket : Route
delete_bucket = record { verb = "DELETE"; segments = lit "v1" ∷ lit "buckets" ∷ param "id" ∷ [] }

abbrev pub set_public_read : Route
set_public_read = record {
  verb = "PUT";
  segments = lit "v1" ∷ lit "buckets" ∷ param "id" ∷ lit "public-read" ∷ [];
}

abbrev pub set_versioning : Route
set_versioning = record {
  verb = "PUT";
  segments = lit "v1" ∷ lit "buckets" ∷ param "id" ∷ lit "versioning" ∷ [];
}

abbrev pub set_lifecycle_rules : Route
set_lifecycle_rules = record {
  verb = "PUT";
  segments = lit "v1" ∷ lit "buckets" ∷ param "id" ∷ lit "lifecycle" ∷ [];
}

abbrev pub list_lifecycle_rules : Route
list_lifecycle_rules = record {
  verb = "GET";
  segments = lit "v1" ∷ lit "buckets" ∷ param "id" ∷ lit "lifecycle" ∷ [];
}

abbrev pub create_access_key : Route
create_access_key = record {
  verb = "POST";
  segments = lit "v1" ∷ lit "buckets" ∷ param "id" ∷ lit "access-keys" ∷ [];
}

abbrev pub list_access_keys : Route
list_access_keys = record {
  verb = "GET";
  segments = lit "v1" ∷ lit "buckets" ∷ param "id" ∷ lit "access-keys" ∷ [];
}

abbrev pub revoke_access_key : Route
revoke_access_key = record {
  verb = "DELETE";
  segments = lit "v1" ∷ lit "buckets" ∷ param "id" ∷ lit "access-keys" ∷ param "keyId" ∷ [];
}
