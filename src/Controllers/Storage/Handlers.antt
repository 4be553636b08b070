-- ===== src/Controllers/Storage/Handlers.antt =====
-- The handlers of services/control-plane/src/modules/storage/storage.controller.ts. A body is a value
-- of its declared type, since nothing validates it.
use absolo_cloud_services.Base.{String, Bool, Option, some, or_default, List}
use absolo_cloud_services.Runtime.Env.{Env}
use absolo_cloud_services.Runtime.State.{State}
use absolo_cloud_services.Schema.Storage.{Bucket, LifecycleRule}
use absolo_cloud_services.Storage.Buckets.{
  BucketOptions, CreatedBucket, create_bucket, list_buckets, get_bucket, delete_bucket,
  set_public_read, set_versioning,
}
use absolo_cloud_services.Storage.AccessKeys.{
  KeyOptions, CreatedKey, KeyView, create_access_key, list_access_keys, revoke_access_key,
}
use absolo_cloud_services.Storage.LifecycleRules.{
  RuleOptions, set_lifecycle_rules, list_lifecycle_rules,
}
use absolo_cloud_services.Controllers.Pipes.{Reply, handled}

pub record CreateBucketBody : Type 0 where
  pub org_id : String
  pub name : String
  pub slug : String
  pub region : Option String
  pub public_read : Option Bool
  pub versioning : Option Bool

-- `{ ...body, projectId }`
abbrev pub bucket_options : String → CreateBucketBody → BucketOptions
bucket_options project_id body = record {
  org_id = body.org_id;
  project_id = project_id;
  name = body.name;
  slug = body.slug;
  region = body.region;
  public_read = body.public_read;
  versioning = body.versioning;
}

-- `{ ...body, scope: body.scope ?? 'bucket', bucketId: id }`
abbrev pub key_options : String → (owner_kind owner_id : String) → Option String → KeyOptions
key_options id owner_kind owner_id scope = record {
  owner_kind = owner_kind;
  owner_id = owner_id;
  scope = or_default scope "bucket";
  bucket_id = some id;
}

module _ ⦃env : Env⦄ where
  unfoldable pub handle_create_bucket :
      String → CreateBucketBody → State → Reply CreatedBucket × State
  handle_create_bucket project_id body = handled (create_bucket (bucket_options project_id body))

  abbrev pub handle_list_buckets : String → State → Reply (List Bucket) × State
  handle_list_buckets org_id = handled (list_buckets org_id)

  abbrev pub handle_get_bucket : String → State → Reply Bucket × State
  handle_get_bucket id = handled (get_bucket id)

  unfoldable pub handle_delete_bucket : String → State → Reply (Unit {0}) × State
  handle_delete_bucket id = handled (delete_bucket id)

  unfoldable pub handle_set_public_read : String → Bool → State → Reply (Unit {0}) × State
  handle_set_public_read id public_read = handled (set_public_read id public_read)

  unfoldable pub handle_set_versioning : String → Bool → State → Reply (Unit {0}) × State
  handle_set_versioning id versioning = handled (set_versioning id versioning)

  unfoldable pub handle_set_lifecycle_rules :
      String → List RuleOptions → State → Reply (Unit {0}) × State
  handle_set_lifecycle_rules id rules = handled (set_lifecycle_rules id rules)

  abbrev pub handle_list_lifecycle_rules : String → State → Reply (List LifecycleRule) × State
  handle_list_lifecycle_rules id = handled (list_lifecycle_rules id)

  unfoldable pub handle_create_access_key :
      String → (owner_kind owner_id : String) → Option String → State → Reply CreatedKey × State
  unfolding create_access_key
  handle_create_access_key id owner_kind owner_id scope =
      handled (create_access_key (key_options id owner_kind owner_id scope))

  abbrev pub handle_list_access_keys : String → State → Reply (List KeyView) × State
  handle_list_access_keys id = handled (list_access_keys id)

  -- The bucket in the path is not looked at.
  abbrev pub handle_revoke_access_key : (id key_id : String) → State → Reply (Unit {0}) × State
  handle_revoke_access_key id key_id = handled (revoke_access_key key_id)
