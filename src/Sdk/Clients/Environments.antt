-- ===== src/Sdk/Clients/Environments.antt =====
-- The calls of packages/sdk-ts/src/clients/environments.ts.
use absolo_cloud_services.Base.{String, [], ◌∷◌}
use absolo_cloud_services.Contracts.JsonValues.{Value}
use absolo_cloud_services.Sdk.Calls.{Sent, path, send_to, plain, with_object}

abbrev pub list : String → Sent
list project_id = send_to "GET" (path ("v1" ∷ "projects" ∷ project_id ∷ "environments" ∷ [])) plain

abbrev pub get : String → String → Sent
get project_id env_id =
    send_to "GET" (path ("v1" ∷ "projects" ∷ project_id ∷ "environments" ∷ env_id ∷ [])) plain

abbrev pub create : String → Value → Sent
create project_id body =
    send_to "POST" (path ("v1" ∷ "projects" ∷ project_id ∷ "environments" ∷ [])) (with_object body)

abbrev pub update : String → String → Value → Sent
update project_id env_id body =
    send_to "PATCH" (path ("v1" ∷ "projects" ∷ project_id ∷ "environments" ∷ env_id ∷ []))
      (with_object body)

abbrev pub delete : String → String → Sent
delete project_id env_id =
    send_to "DELETE" (path ("v1" ∷ "projects" ∷ project_id ∷ "environments" ∷ env_id ∷ [])) plain
