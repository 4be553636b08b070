-- ===== src/Sdk/Clients/Auth.antt =====
-- The calls of packages/sdk-ts/src/clients/auth.ts.
use absolo_cloud_services.Base.{[], ◌∷◌}
use absolo_cloud_services.Contracts.JsonValues.{Value}
use absolo_cloud_services.Sdk.Calls.{Sent, path, send_to, plain, with_object}

abbrev pub signup : Value → Sent
signup body = send_to "POST" (path ("v1" ∷ "auth" ∷ "signup" ∷ [])) (with_object body)

abbrev pub login : Value → Sent
login body = send_to "POST" (path ("v1" ∷ "auth" ∷ "login" ∷ [])) (with_object body)

abbrev pub logout : Sent
logout = send_to "POST" (path ("v1" ∷ "auth" ∷ "logout" ∷ [])) plain

abbrev pub me : Sent
me = send_to "GET" (path ("v1" ∷ "auth" ∷ "me" ∷ [])) plain

abbrev pub request_password_reset : Value → Sent
request_password_reset body =
    send_to "POST" (path ("v1" ∷ "auth" ∷ "password-reset" ∷ [])) (with_object body)

abbrev pub confirm_password_reset : Value → Sent
confirm_password_reset body =
    send_to "POST" (path ("v1" ∷ "auth" ∷ "password-reset" ∷ "confirm" ∷ [])) (with_object body)
