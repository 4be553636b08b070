-- ===== src/Sdk/Clients/Storage.antt =====
-- The calls of packages/sdk-ts/src/clients/storage.ts.
use absolo_cloud_services.Base.{String, Bool, ◌⧺◌, [], ◌∷◌}
use absolo_cloud_services.Contracts.JsonValues.{Value, bool, arr, obj, Items, field, end}
use absolo_cloud_services.Sdk.Calls.{Sent, path, send_to, plain, with_text}

abbrev pub create : String → Value → Sent
create project_id body =
    send_to "POST" (path ("v1" ∷ "projects" ∷ project_id ∷ "buckets" ∷ [])) (with_text body)

abbrev pub list : String → Sent
list org_id = send_to "GET" (path ("v1" ∷ "buckets" ∷ []) ⧺ "?orgId=" ⧺ org_id) plain

abbrev pub get : String → Sent
get id = send_to "GET" (path ("v1" ∷ "buckets" ∷ id ∷ [])) plain

abbrev pub delete : String → Sent
delete id = send_to "DELETE" (path ("v1" ∷ "buckets" ∷ id ∷ [])) plain

abbrev pub set_public_read : String → Bool → Sent
set_public_read id public_read =
    send_to "PUT" (path ("v1" ∷ "buckets" ∷ id ∷ "public-read" ∷ []))
      (with_text (obj (field "publicRead" (bool public_read) end)))

abbrev pub set_versioning : String → Bool → Sent
set_versioning id versioning =
    send_to "PUT" (path ("v1" ∷ "buckets" ∷ id ∷ "versioning" ∷ []))
      (with_text (obj (field "versioning" (bool versioning) end)))

abbrev pub set_lifecycle_rules : String → Items → Sent
set_lifecycle_rules id rules =
    send_to "PUT" (path ("v1" ∷ "buckets" ∷ id ∷ "lifecycle" ∷ []))
      (with_text (obj (field "rules" (arr rules) end)))

abbrev pub list_lifecycle_rules : String → Sent
list_lifecycle_rules id = send_to "GET" (path ("v1" ∷ "buckets" ∷ id ∷ "lifecycle" ∷ [])) plain

abbrev pub create_access_key : String → Value → Sent
create_access_key bucket_id body =
    send_to "POST" (path ("v1" ∷ "buckets" ∷ bucket_id ∷ "access-keys" ∷ [])) (with_text body)

abbrev pub list_access_keys : String → Sent
list_access_keys bucket_id =
    send_to "GET" (path ("v1" ∷ "buckets" ∷ bucket_id ∷ "access-keys" ∷ [])) plain

abbrev pub revoke_access_key : String → String → Sent
revoke_access_key bucket_id key_id =
    send_to "DELETE" (path ("v1" ∷ "buckets" ∷ bucket_id ∷ "access-keys" ∷ key_id ∷ [])) plain
