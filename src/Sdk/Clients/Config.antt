-- ===== src/Sdk/Clients/Config.antt =====
-- The calls of packages/sdk-ts/src/clients/config.ts.
use absolo_cloud_services.Base.{String, Option, some, List, [], ◌∷◌}
use absolo_cloud_services.Contracts.JsonValues.{Value}
use absolo_cloud_services.Sdk.Calls.{Sent, path, send_to, plain, with_object, with_query}

abbrev pub list : String → String → List (String × Option String) → Sent
list project_id env_id query =
    send_to "GET" (path ("v1" ∷ "projects" ∷ project_id ∷ "environments" ∷ env_id ∷ "config" ∷ []))
      (with_query query)

abbrev pub replace : String → String → Value → Sent
replace project_id env_id body =
    send_to "PUT" (path ("v1" ∷ "projects" ∷ project_id ∷ "environments" ∷ env_id ∷ "config" ∷ []))
      (with_object body)

abbrev pub patch : String → String → Value → Sent
patch project_id env_id body =
    send_to "PATCH"
      (path ("v1" ∷ "projects" ∷ project_id ∷ "environments" ∷ env_id ∷ "config" ∷ []))
      (with_object body)

abbrev pub import : String → String → Value → Sent
import project_id env_id body =
    send_to "POST"
      (path ("v1" ∷ "projects" ∷ project_id ∷ "environments" ∷ env_id ∷ "config" ∷ "import" ∷ []))
      (with_object body)

abbrev pub export : String → String → String → Sent
export project_id env_id reveal =
    send_to "GET"
      (path ("v1" ∷ "projects" ∷ project_id ∷ "environments" ∷ env_id ∷ "config" ∷ "export" ∷ []))
      (with_query (("reveal", some reveal) ∷ []))

abbrev pub list_versions : String → String → Sent
list_versions project_id env_id =
    send_to "GET"
      (path ("v1" ∷ "projects" ∷ project_id ∷ "environments" ∷ env_id ∷ "config" ∷ "versions" ∷ []))
      plain

abbrev pub restore_version : String → String → String → Sent
restore_version project_id env_id version_id =
    send_to "POST"
      (path (
        "v1" ∷ "projects" ∷ project_id ∷ "environments" ∷ env_id ∷ "config" ∷ "versions"
        ∷ version_id ∷ "restore" ∷ []))
      plain

abbrev pub diff : String → String → String → String → Sent
diff project_id env_id from_version_id to_version_id =
    send_to "GET"
      (path ("v1" ∷ "projects" ∷ project_id ∷ "environments" ∷ env_id ∷ "config" ∷ "diff" ∷ []))
      (with_query (("from", some from_version_id) ∷ ("to", some to_version_id) ∷ []))
