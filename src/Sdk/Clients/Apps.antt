-- ===== src/Sdk/Clients/Apps.antt =====
-- The calls of packages/sdk-ts/src/clients/apps.ts.
use absolo_cloud_services.Base.{String, ◌⧺◌, [], ◌∷◌}
use absolo_cloud_services.Contracts.JsonValues.{Value}
use absolo_cloud_services.Sdk.Calls.{Sent, path, send_to, plain, with_text}

abbrev pub create : Value → Sent
create body = send_to "POST" (path ("v1" ∷ "apps" ∷ [])) (with_text body)

abbrev pub list : String → Sent
list environment_id =
    send_to "GET" (path ("v1" ∷ "apps" ∷ []) ⧺ "?environmentId=" ⧺ environment_id) plain

abbrev pub deploy : String → Value → Sent
deploy id body = send_to "POST" (path ("v1" ∷ "apps" ∷ id ∷ "deployments" ∷ [])) (with_text body)
