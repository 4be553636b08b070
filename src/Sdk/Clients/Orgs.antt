-- ===== src/Sdk/Clients/Orgs.antt =====
-- The calls of packages/sdk-ts/src/clients/orgs.ts.
use absolo_cloud_services.Base.{String, Option, List, [], ◌∷◌}
use absolo_cloud_services.Contracts.JsonValues.{Value}
use absolo_cloud_services.Sdk.Calls.{Sent, path, send_to, plain, with_object, with_query}

abbrev pub list : List (String × Option String) → Sent
list query = send_to "GET" (path ("v1" ∷ "orgs" ∷ [])) (with_query query)

abbrev pub get : String → Sent
get org_id = send_to "GET" (path ("v1" ∷ "orgs" ∷ org_id ∷ [])) plain

abbrev pub create : Value → Sent
create body = send_to "POST" (path ("v1" ∷ "orgs" ∷ [])) (with_object body)

abbrev pub update : String → Value → Sent
update org_id body = send_to "PATCH" (path ("v1" ∷ "orgs" ∷ org_id ∷ [])) (with_object body)

abbrev pub delete : String → Sent
delete org_id = send_to "DELETE" (path ("v1" ∷ "orgs" ∷ org_id ∷ [])) plain

abbrev pub list_members : String → Sent
list_members org_id = send_to "GET" (path ("v1" ∷ "orgs" ∷ org_id ∷ "members" ∷ [])) plain

abbrev pub invite_member : String → Value → Sent
invite_member org_id body =
    send_to "POST" (path ("v1" ∷ "orgs" ∷ org_id ∷ "members" ∷ [])) (with_object body)
