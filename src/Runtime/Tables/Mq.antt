-- ===== src/Runtime/Tables/Mq.antt =====
-- What the mq tables of services/control-plane/src/db/schema.ts enforce.
use absolo_cloud_services.Base.{refl, true, ◌==◌}
use absolo_cloud_services.Runtime.Env.{Env}
use absolo_cloud_services.Runtime.Action.{Relation}
use absolo_cloud_services.Schema.Mq.{OutboxEvent, Saga}

module _ ⦃env : Env⦄ where
  abbrev pub outbox : Relation OutboxEvent
  outbox = record {
    read = λ s. s.outbox;
    write = λ v s. record s { outbox = v };
    clashes = λ r r'. r.id == r'.id;
    refers = λ _ _. true;
    read-write = λ _ _. refl;
  }

  abbrev pub saga_state : Relation Saga
  saga_state = record {
    read = λ s. s.saga_state;
    write = λ v s. record s { saga_state = v };
    clashes = λ r r'. r.id == r'.id;
    refers = λ _ _. true;
    read-write = λ _ _. refl;
  }
