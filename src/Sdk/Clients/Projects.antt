-- ===== src/Sdk/Clients/Projects.antt =====
-- The calls of packages/sdk-ts/src/clients/projects.ts.
use absolo_cloud_services.Base.{String, Option, List, [], ◌∷◌}
use absolo_cloud_services.Contracts.JsonValues.{Value}
use absolo_cloud_services.Sdk.Calls.{Sent, path, send_to, plain, with_object, with_query}

abbrev pub list : String → List (String × Option String) → Sent
list org_id query =
    send_to "GET" (path ("v1" ∷ "orgs" ∷ org_id ∷ "projects" ∷ [])) (with_query query)

abbrev pub get : String → Sent
get project_id = send_to "GET" (path ("v1" ∷ "projects" ∷ project_id ∷ [])) plain

abbrev pub create : String → Value → Sent
create org_id body =
    send_to "POST" (path ("v1" ∷ "orgs" ∷ org_id ∷ "projects" ∷ [])) (with_object body)

abbrev pub update : String → Value → Sent
update project_id body =
    send_to "PATCH" (path ("v1" ∷ "projects" ∷ project_id ∷ [])) (with_object body)

abbrev pub delete : String → Sent
delete project_id = send_to "DELETE" (path ("v1" ∷ "projects" ∷ project_id ∷ [])) plain
