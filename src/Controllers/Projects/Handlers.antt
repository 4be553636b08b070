-- ===== src/Controllers/Projects/Handlers.antt =====
-- The handlers of services/control-plane/src/modules/projects/projects.controller.ts.
use absolo_cloud_services.Base.{String, List}
use absolo_cloud_services.Errors.{Issue}
use absolo_cloud_services.Runtime.Env.{Env}
use absolo_cloud_services.Runtime.State.{State}
use absolo_cloud_services.Contracts.JsonValues.{Value}
use absolo_cloud_services.Contracts.Requests.{create_project_request, update_project_request}
use absolo_cloud_services.Controllers.Pipes.{Reply, handled, with_request, transform}
use absolo_cloud_services.Iam.Auth.{AuthenticatedUser}
use absolo_cloud_services.Projects.{
  ProjectView, list_projects, get_project, create_project, update_project, soft_delete_project,
}

module _ ⦃env : Env⦄ where
  abbrev pub handle_list : AuthenticatedUser → String → State → Reply (List ProjectView) × State
  handle_list user org_id = handled (list_projects user org_id)

  unfoldable pub handle_create :
      (Value → List Issue) → AuthenticatedUser → String → Value → State → Reply ProjectView × State
  unfolding with_request create_project_request
  handle_create issues user org_id body =
      transform create_project_request issues body (create_project user org_id)

  unfoldable pub handle_get : AuthenticatedUser → String → State → Reply ProjectView × State
  handle_get user project_id = handled (get_project user project_id)

  unfoldable pub handle_update :
      (Value → List Issue) → AuthenticatedUser → String → Value → State → Reply ProjectView × State
  unfolding with_request update_project_request
  handle_update issues user project_id body =
      transform update_project_request issues body (update_project user project_id)

  unfoldable pub handle_remove : AuthenticatedUser → String → State → Reply (Unit {0}) × State
  handle_remove user project_id = handled (soft_delete_project user project_id)
