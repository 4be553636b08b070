-- ===== src/Runtime/Tables/Bindings.antt =====
-- What the bindings tables of services/control-plane/src/db/schema.ts enforce.
use absolo_cloud_services.Base.{refl, ◌&&◌, ◌||◌, ◌==◌}
use absolo_cloud_services.Runtime.Env.{Env}
use absolo_cloud_services.Runtime.Action.{Relation}
use absolo_cloud_services.Schema.Bindings.{Binding}
use absolo_cloud_services.Runtime.Tables.Compute.{app_exists}

module _ ⦃env : Env⦄ where
  abbrev pub bindings : Relation Binding
  bindings = record {
    read = λ s. s.bindings;
    write = λ v s. record s { bindings = v };
    clashes = λ r r'.
        r.id == r'.id
        || (r.app_id == r'.app_id
            && r.resource_type == r'.resource_type
            && r.resource_id == r'.resource_id);
    refers = λ s r. app_exists s r.app_id;
    read-write = λ _ _. refl;
  }
