-- ===== src/Controllers/Platform.antt =====
-- The routes of services/control-plane/src/modules/platform/platform.controller.ts.
use absolo_cloud_services.Base.{[], ◌∷◌}
use absolo_cloud_services.Controllers.Route.{Route, lit, param}

abbrev pub list_regions : Route
list_regions = record { verb = "GET"; segments = lit "v1" ∷ lit "regions" ∷ [] }

abbrev pub get_region : Route
get_region = record { verb = "GET"; segments = lit "v1" ∷ lit "regions" ∷ param "code" ∷ [] }
