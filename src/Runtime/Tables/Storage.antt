-- ===== src/Runtime/Tables/Storage.antt =====
-- What the storage tables of services/control-plane/src/db/schema.ts enforce.
use absolo_cloud_services.Base.{refl, String, Bool, ◌&&◌, ◌||◌, ◌==◌}
use absolo_cloud_services.Runtime.Env.{Env}
use absolo_cloud_services.Runtime.State.{State}
use absolo_cloud_services.Runtime.Action.{Relation, in_table}
use absolo_cloud_services.Schema.Storage.{Bucket, LifecycleRule, AccessKey}
use absolo_cloud_services.Runtime.Tables.Checks.{found, null_or}
use absolo_cloud_services.Runtime.Tables.Iam.{org_exists}
use absolo_cloud_services.Runtime.Tables.Projects.{project_exists}

module _ ⦃env : Env⦄ where
  abbrev pub buckets : Relation Bucket
  buckets = record {
    read = λ s. s.buckets;
    write = λ v s. record s { buckets = v };
    clashes = λ r r'. r.id == r'.id || (r.org_id == r'.org_id && r.slug == r'.slug);
    refers = λ s r. org_exists s r.org_id && project_exists s r.project_id;
    read-write = λ _ _. refl;
  }

  abbrev pub bucket_exists : State → String → Bool
  bucket_exists s id = found (λ r. r.id == id) (in_table buckets s)

  abbrev pub bucket_lifecycle_rules : Relation LifecycleRule
  bucket_lifecycle_rules = record {
    read = λ s. s.bucket_lifecycle_rules;
    write = λ v s. record s { bucket_lifecycle_rules = v };
    clashes = λ r r'. r.id == r'.id;
    refers = λ s r. bucket_exists s r.bucket_id;
    read-write = λ _ _. refl;
  }

  abbrev pub access_keys : Relation AccessKey
  access_keys = record {
    read = λ s. s.access_keys;
    write = λ v s. record s { access_keys = v };
    clashes = λ r r'. r.id == r'.id || r.access_key == r'.access_key;
    refers = λ s r. null_or (bucket_exists s) r.bucket_id;
    read-write = λ _ _. refl;
  }
