-- ===== src/Storage/Buckets.antt =====
-- Buckets: `createBucket`, `listBuckets`, `getBucket`, `deleteBucket`, `setPublicRead` and
-- `setVersioning` of services/control-plane/src/modules/storage/storage.service.ts.
pub mod Deletion
pub mod Slugs
use absolo_cloud_services.Base.{
  ℕ, String, ◌⧺◌, Bool, false, ◌&&◌, not, Option, none, some, is_some, some_eq, or_default, ◌==◌,
  ltb, List, length, if◌then◌else◌,
}
use absolo_cloud_services.Result.{err, Error, not_found, conflict}
use absolo_cloud_services.Runtime.Env.{Env}
use absolo_cloud_services.Runtime.Action.{
  Action, pure, ◌>>=◌, ◌>>◌, or_throw, now, new_id, select, select_first, insert, update, delete,
}
use absolo_cloud_services.Schema.Storage.{Bucket}
use absolo_cloud_services.Runtime.Tables.Storage.{buckets, access_keys}
use absolo_cloud_services.Storage.AccessKeys.{create_access_key}

pub record BucketOptions : Type 0 where
  pub org_id : String
  pub project_id : String
  pub name : String
  pub slug : String
  pub region : Option String
  pub public_read : Option Bool
  pub versioning : Option Bool

pub record CreatedBucket : Type 0 where
  pub bucket : Bucket
  pub access_key : String
  pub secret_key : String

abbrev pub bucket_row : BucketOptions → String → ℕ → Bucket
bucket_row opts id at = record {
  id = id;
  org_id = opts.org_id;
  project_id = opts.project_id;
  region = or_default opts.region "eu-central";
  name = opts.name;
  slug = opts.slug;
  public_read = or_default opts.public_read false;
  versioning = or_default opts.versioning false;
  created_at = at;
  deleted_at = none;
}

abbrev pub has_slug : String → String → Bucket → Bool
has_slug org_id slug r = r.org_id == org_id && r.slug == slug

abbrev pub bucket_not_found : String → Error
bucket_not_found id = not_found ("Bucket " ⧺ id ⧺ " not found")

module _ ⦃env : Env⦄ where
  pub store_bucket : BucketOptions → String → Action CreatedBucket
  unfolding create_access_key
  store_bucket opts id = do
    at ← now
    insert buckets (bucket_row opts id at)
    created ← create_access_key (record {
      owner_kind = "org";
      owner_id = opts.org_id;
      scope = "bucket";
      bucket_id = some id;
    })
    pure (record {
      bucket = bucket_row opts id at;
      access_key = created.key.access_key;
      secret_key = created.secret_key;
    })

  pub refuse_or_store : BucketOptions → String → List Bucket → Action CreatedBucket
  unfolding store_bucket
  refuse_or_store opts id existing s =
      if ltb 0 (length existing)
      then (err (conflict ("Bucket slug \"" ⧺ opts.slug ⧺ "\" already exists in this org")), s)
      else store_bucket opts id s

  pub create_bucket : BucketOptions → Action CreatedBucket
  unfolding refuse_or_store
  create_bucket opts = do
    id ← new_id "bkt"
    existing ← select buckets (has_slug opts.org_id opts.slug)
    refuse_or_store opts id existing

  abbrev pub list_buckets : String → Action (List Bucket)
  list_buckets org_id = do
    rows ← select buckets (λ r. r.org_id == org_id && not (is_some r.deleted_at))
    pure (env.order_by_desc (λ r. r.created_at) rows)

  abbrev pub get_bucket : String → Action Bucket
  get_bucket id = do
    bucket ← select_first buckets (λ r. r.id == id)
    or_throw (bucket_not_found id) bucket

  pub remove_bucket : String → Action (Unit {0})
  remove_bucket id = do
    at ← now
    update buckets (λ r. r.id == id) (λ r. record r { deleted_at = some at })
    delete access_keys (λ r. some_eq r.bucket_id id)

  pub delete_bucket : String → Action (Unit {0})
  unfolding remove_bucket
  delete_bucket id = do get_bucket id; remove_bucket id

  pub set_public_read : String → Bool → Action (Unit {0})
  set_public_read id public_read = do
    get_bucket id
    update buckets (λ r. r.id == id) (λ r. record r { public_read = public_read })

  pub set_versioning : String → Bool → Action (Unit {0})
  set_versioning id versioning = do
    get_bucket id
    update buckets (λ r. r.id == id) (λ r. record r { versioning = versioning })
