-- ===== src/Controllers/Enterprise.antt =====
-- The routes of services/control-plane/src/modules/enterprise/enterprise.controller.ts.
use absolo_cloud_services.Base.{[], ◌∷◌}
use absolo_cloud_services.Controllers.Route.{Route, lit, param}

abbrev pub list_clusters : Route
list_clusters = record {
  verb = "GET";
  segments = lit "v1" ∷ lit "enterprise" ∷ lit "clusters" ∷ [];
}

abbrev pub create_cluster : Route
create_cluster = record {
  verb = "POST";
  segments = lit "v1" ∷ lit "enterprise" ∷ lit "clusters" ∷ [];
}

abbrev pub list_hosts : Route
list_hosts = record {
  verb = "GET";
  segments = lit "v1" ∷ lit "enterprise" ∷ lit "clusters" ∷ param "id" ∷ lit "hosts" ∷ [];
}

abbrev pub add_host : Route
add_host = record {
  verb = "POST";
  segments = lit "v1" ∷ lit "enterprise" ∷ lit "clusters" ∷ param "id" ∷ lit "hosts" ∷ [];
}
