-- ===== src/Sdk/Clients/Enterprise.antt =====
-- The calls of packages/sdk-ts/src/clients/enterprise.client.ts.
use absolo_cloud_services.Base.{String, some, [], ◌∷◌}
use absolo_cloud_services.Contracts.JsonValues.{Value}
use absolo_cloud_services.Sdk.Calls.{Sent, path, send_to, plain, with_object, with_query}

abbrev pub list_clusters : String → Sent
list_clusters org_id =
    send_to "GET" (path ("v1" ∷ "enterprise" ∷ "clusters" ∷ []))
      (with_query (("orgId", some org_id) ∷ []))

abbrev pub create_cluster : Value → Sent
create_cluster body =
    send_to "POST" (path ("v1" ∷ "enterprise" ∷ "clusters" ∷ [])) (with_object body)

abbrev pub list_cluster_hosts : String → Sent
list_cluster_hosts cluster_id =
    send_to "GET" (path ("v1" ∷ "enterprise" ∷ "clusters" ∷ cluster_id ∷ "hosts" ∷ [])) plain

abbrev pub add_cluster_host : String → Value → Sent
add_cluster_host cluster_id body =
    send_to "POST" (path ("v1" ∷ "enterprise" ∷ "clusters" ∷ cluster_id ∷ "hosts" ∷ []))
      (with_object body)
