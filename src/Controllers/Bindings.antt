-- ===== src/Controllers/Bindings.antt =====
-- The routes of services/control-plane/src/modules/bindings/bindings.controller.ts.
pub mod Handlers
use absolo_cloud_services.Base.{[], ◌∷◌}
use absolo_cloud_services.Controllers.Route.{Route, lit, param}

abbrev pub bind_resource : Route
bind_resource = record {
  verb = "POST";
  segments = lit "v1" ∷ lit "apps" ∷ param "appId" ∷ lit "bindings" ∷ [];
}

abbrev pub list_bindings : Route
list_bindings = record {
  verb = "GET";
  segments = lit "v1" ∷ lit "apps" ∷ param "appId" ∷ lit "bindings" ∷ [];
}

abbrev pub unbind_resource : Route
unbind_resource = record {
  verb = "DELETE";
  segments = lit "v1" ∷ lit "apps" ∷ param "appId" ∷ lit "bindings" ∷ param "bindingId" ∷ [];
}

abbrev pub get_injected_env_vars : Route
get_injected_env_vars = record {
  verb = "GET";
  segments = lit "v1" ∷ lit "apps" ∷ param "appId" ∷ lit "bindings" ∷ lit "env" ∷ [];
}
