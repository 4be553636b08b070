-- ===== src/Runtime/Tables/Platform.antt =====
-- What the platform tables of services/control-plane/src/db/schema.ts enforce.
use absolo_cloud_services.Base.{refl, true, ◌||◌, ◌==◌}
use absolo_cloud_services.Runtime.Env.{Env}
use absolo_cloud_services.Runtime.Action.{Relation}
use absolo_cloud_services.Schema.Platform.{Region}

module _ ⦃env : Env⦄ where
  abbrev pub regions : Relation Region
  regions = record {
    read = λ s. s.regions;
    write = λ v s. record s { regions = v };
    clashes = λ r r'. r.id == r'.id || r.code == r'.code;
    refers = λ _ _. true;
    read-write = λ _ _. refl;
  }
