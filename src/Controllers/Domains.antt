-- ===== src/Controllers/Domains.antt =====
-- The routes of services/control-plane/src/modules/domains/domains.controller.ts.
use absolo_cloud_services.Base.{[], ◌∷◌}
use absolo_cloud_services.Controllers.Route.{Route, lit, param}

abbrev pub list_domains : Route
list_domains = record {
  verb = "GET";
  segments = lit "v1" ∷ lit "apps" ∷ param "appId" ∷ lit "domains" ∷ [];
}

abbrev pub add_custom_domain : Route
add_custom_domain = record {
  verb = "POST";
  segments = lit "v1" ∷ lit "apps" ∷ param "appId" ∷ lit "domains" ∷ [];
}

abbrev pub allocate_subdomain : Route
allocate_subdomain = record {
  verb = "POST";
  segments = lit "v1" ∷ lit "apps" ∷ param "appId" ∷ lit "domains" ∷ lit "allocate" ∷ [];
}
