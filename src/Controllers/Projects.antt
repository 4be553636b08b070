-- ===== src/Controllers/Projects.antt =====
-- The routes of services/control-plane/src/modules/projects/projects.controller.ts.
pub mod Handlers
pub mod Conforming
use absolo_cloud_services.Base.{[], ◌∷◌}
use absolo_cloud_services.Controllers.Route.{Route, lit, param}

abbrev pub list : Route
list = record {
  verb = "GET";
  segments = lit "v1" ∷ lit "orgs" ∷ param "orgId" ∷ lit "projects" ∷ [];
}

abbrev pub create : Route
create = record {
  verb = "POST";
  segments = lit "v1" ∷ lit "orgs" ∷ param "orgId" ∷ lit "projects" ∷ [];
}

abbrev pub get : Route
get = record { verb = "GET"; segments = lit "v1" ∷ lit "projects" ∷ param "projectId" ∷ [] }

abbrev pub update : Route
update = record { verb = "PATCH"; segments = lit "v1" ∷ lit "projects" ∷ param "projectId" ∷ [] }

abbrev pub remove : Route
remove = record { verb = "DELETE"; segments = lit "v1" ∷ lit "projects" ∷ param "projectId" ∷ [] }
