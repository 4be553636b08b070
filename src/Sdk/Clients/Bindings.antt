-- ===== src/Sdk/Clients/Bindings.antt =====
-- The calls of packages/sdk-ts/src/clients/bindings.ts.
use absolo_cloud_services.Base.{String, [], ◌∷◌}
use absolo_cloud_services.Contracts.JsonValues.{Value}
use absolo_cloud_services.Sdk.Calls.{Sent, path, send_to, plain, with_text}

abbrev pub bind : String → Value → Sent
bind app_id body = send_to "POST" (path ("v1" ∷ "apps" ∷ app_id ∷ "bindings" ∷ [])) (with_text body)

abbrev pub list : String → Sent
list app_id = send_to "GET" (path ("v1" ∷ "apps" ∷ app_id ∷ "bindings" ∷ [])) plain

abbrev pub unbind : String → String → Sent
unbind app_id binding_id =
    send_to "DELETE" (path ("v1" ∷ "apps" ∷ app_id ∷ "bindings" ∷ binding_id ∷ [])) plain

abbrev pub get_injected_env_vars : String → Sent
get_injected_env_vars app_id =
    send_to "GET" (path ("v1" ∷ "apps" ∷ app_id ∷ "bindings" ∷ "env" ∷ [])) plain
