-- ===== src/Controllers/Auth/Handlers.antt =====
-- The handlers of services/control-plane/src/modules/iam/auth.controller.ts.
use absolo_cloud_services.Base.{String, Bool, Option, some, List}
use absolo_cloud_services.Errors.{Issue}
use absolo_cloud_services.Runtime.Env.{Env}
use absolo_cloud_services.Runtime.State.{State}
use absolo_cloud_services.Runtime.Action.{pure, ◌>>=◌}
use absolo_cloud_services.Contracts.JsonValues.{Value}
use absolo_cloud_services.Contracts.Requests.{signup_request, login_request}
use absolo_cloud_services.Controllers.Pipes.{Reply, handled, with_request, transform}
use absolo_cloud_services.Iam.Users.{get_by_id}
use absolo_cloud_services.Iam.Auth.{
  AuthenticatedUser, UserView, SignedIn, to_user, signup, login, logout,
}

module _ ⦃env : Env⦄ (is_email : String → Bool) (issues : Value → List Issue) where
  unfoldable pub handle_sign_up :
      Value → Option String → Option String → State → Reply SignedIn × State
  unfolding with_request signup_request signup
  handle_sign_up body user_agent ip =
      transform (signup_request is_email) issues body
        (λ r. signup r.captcha_token r.email r.full_name r.password user_agent ip)

  unfoldable pub handle_sign_in :
      Value → Option String → Option String → State → Reply SignedIn × State
  unfolding with_request login_request login
  handle_sign_in body user_agent ip =
      transform (login_request is_email) issues body (λ r. login r.email r.password user_agent ip)

module _ ⦃env : Env⦄ where
  unfoldable pub handle_sign_out : AuthenticatedUser → State → Reply (Unit {0}) × State
  handle_sign_out user = handled (logout (some user.session_id))

  abbrev pub handle_me : AuthenticatedUser → State → Reply UserView × State
  handle_me user = handled (do row ← get_by_id user.id; pure (to_user row))
