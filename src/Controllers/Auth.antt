-- ===== src/Controllers/Auth.antt =====
-- The routes of services/control-plane/src/modules/iam/auth.controller.ts.
pub mod Handlers
pub mod SignIn
use absolo_cloud_services.Base.{[], ◌∷◌}
use absolo_cloud_services.Controllers.Route.{Route, lit}

abbrev pub sign_up : Route
sign_up = record { verb = "POST"; segments = lit "v1" ∷ lit "auth" ∷ lit "sign-up" ∷ [] }

abbrev pub sign_in : Route
sign_in = record { verb = "POST"; segments = lit "v1" ∷ lit "auth" ∷ lit "sign-in" ∷ [] }

abbrev pub sign_out : Route
sign_out = record { verb = "POST"; segments = lit "v1" ∷ lit "auth" ∷ lit "sign-out" ∷ [] }

abbrev pub me : Route
me = record { verb = "GET"; segments = lit "v1" ∷ lit "auth" ∷ lit "me" ∷ [] }
