-- ===== src/Sdk/Clients/Platform.antt =====
-- The calls of packages/sdk-ts/src/clients/platform.ts.
use absolo_cloud_services.Base.{String, [], ◌∷◌}
use absolo_cloud_services.Sdk.Calls.{Sent, path, send_to, plain}

abbrev pub list_regions : Sent
list_regions = send_to "GET" (path ("v1" ∷ "regions" ∷ [])) plain

abbrev pub get_region : String → Sent
get_region code = send_to "GET" (path ("v1" ∷ "regions" ∷ code ∷ [])) plain
