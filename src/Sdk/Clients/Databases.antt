-- ===== src/Sdk/Clients/Databases.antt =====
-- The calls of packages/sdk-ts/src/clients/databases.ts.
use absolo_cloud_services.Base.{String, ◌⧺◌, [], ◌∷◌}
use absolo_cloud_services.Contracts.JsonValues.{Value, str, obj, field, end}
use absolo_cloud_services.Sdk.Calls.{Sent, path, send_to, plain, with_text}

abbrev pub create : String → Value → Sent
create project_id body =
    send_to "POST" (path ("v1" ∷ "projects" ∷ project_id ∷ "databases" ∷ [])) (with_text body)

abbrev pub list : String → Sent
list org_id = send_to "GET" (path ("v1" ∷ "databases" ∷ []) ⧺ "?orgId=" ⧺ org_id) plain

abbrev pub get : String → Sent
get id = send_to "GET" (path ("v1" ∷ "databases" ∷ id ∷ [])) plain

abbrev pub delete : String → Sent
delete id = send_to "DELETE" (path ("v1" ∷ "databases" ∷ id ∷ [])) plain

abbrev pub scale : String → Value → Sent
scale id body = send_to "PUT" (path ("v1" ∷ "databases" ∷ id ∷ "scale" ∷ [])) (with_text body)

abbrev pub create_user : String → Value → Sent
create_user database_id body =
    send_to "POST" (path ("v1" ∷ "databases" ∷ database_id ∷ "users" ∷ [])) (with_text body)

abbrev pub list_users : String → Sent
list_users database_id =
    send_to "GET" (path ("v1" ∷ "databases" ∷ database_id ∷ "users" ∷ [])) plain

abbrev pub delete_user : String → String → Sent
delete_user database_id user_id =
    send_to "DELETE" (path ("v1" ∷ "databases" ∷ database_id ∷ "users" ∷ user_id ∷ [])) plain

abbrev pub rotate_credentials : String → Sent
rotate_credentials database_id =
    send_to "POST" (path ("v1" ∷ "databases" ∷ database_id ∷ "credentials" ∷ "rotate" ∷ [])) plain

abbrev pub set_parameter_group : String → String → Sent
set_parameter_group database_id parameter_group_id =
    send_to "PUT" (path ("v1" ∷ "databases" ∷ database_id ∷ "parameter-group" ∷ []))
      (with_text (obj (field "parameterGroupId" (str parameter_group_id) end)))

abbrev pub create_backup : String → String → Sent
create_backup database_id kind =
    send_to "POST" (path ("v1" ∷ "databases" ∷ database_id ∷ "backups" ∷ []))
      (with_text (obj (field "kind" (str kind) end)))

abbrev pub list_backups : String → Sent
list_backups database_id =
    send_to "GET" (path ("v1" ∷ "databases" ∷ database_id ∷ "backups" ∷ [])) plain

abbrev pub restore_from_backup : String → String → String → Sent
restore_from_backup database_id backup_id name =
    send_to "POST" (path ("v1" ∷ "databases" ∷ database_id ∷ "restore" ∷ []))
      (with_text (obj (field "backupId" (str backup_id) (field "name" (str name) end))))
