-- ===== src/Outbox.antt =====
-- The transactional outbox: services/control-plane/src/modules/outbox/outbox.service.ts. Both
-- operations are called in a transaction of the caller.
pub mod Counts
use absolo_cloud_services.Base.{ℕ, String, none}
use absolo_cloud_services.Runtime.Env.{Env}
use absolo_cloud_services.Runtime.Action.{Action, pure, ◌>>=◌, ◌>>◌, now, new_id, insert}
use absolo_cloud_services.Schema.Json.{Json}
use absolo_cloud_services.Schema.Mq.{OutboxEvent, Saga}
use absolo_cloud_services.Runtime.Tables.Mq.{outbox, saga_state}

abbrev pub event_row : String → String → Json → ℕ → OutboxEvent
event_row id topic payload at = record {
  id = id;
  topic = topic;
  payload = payload;
  published_at = none;
  created_at = at;
}

abbrev pub saga_row : String → String → Json → ℕ → Saga
saga_row id saga_type context at = record {
  id = id;
  saga_type = saga_type;
  status = "STARTED";
  context = context;
  error = none;
  created_at = at;
  updated_at = at;
}

module _ ⦃env : Env⦄ where
  unfoldable pub publish : String → Json → Action (Unit {0})
  publish topic payload = do
    id ← new_id "evt"
    at ← now
    insert outbox (event_row id topic payload at)

  unfoldable pub create_saga : String → Json → Action String
  create_saga saga_type context = do
    id ← new_id "sag"
    at ← now
    insert saga_state (saga_row id saga_type context at)
    pure id
