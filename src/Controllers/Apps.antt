-- ===== src/Controllers/Apps.antt =====
-- The routes of services/control-plane/src/modules/apps/apps.controller.ts.
use absolo_cloud_services.Base.{[], ◌∷◌}
use absolo_cloud_services.Controllers.Route.{Route, lit, param}

abbrev pub create_app : Route
create_app = record { verb = "POST"; segments = lit "apps" ∷ [] }

abbrev pub get_apps : Route
get_apps = record { verb = "GET"; segments = lit "apps" ∷ param "environmentId" ∷ [] }

abbrev pub deploy_app : Route
deploy_app = record {
  verb = "POST";
  segments = lit "apps" ∷ param "appId" ∷ lit "deployments" ∷ [];
}

abbrev pub update_deployment_status : Route
update_deployment_status = record {
  verb = "POST";
  segments =
      lit "apps" ∷ param "appId" ∷ lit "deployments" ∷ param "deploymentId" ∷ lit "status" ∷ [];
}
