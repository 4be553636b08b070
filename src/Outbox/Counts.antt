-- ===== src/Outbox/Counts.antt =====
-- What an event and a saga add to their tables, and what they leave alone.
use absolo_cloud_services.Base.{
  ℕ, ◌+◌, String, ◌⧺◌, ◌≡◌, refl, ap, ◌∙◌, true, ◌==◌, eq_refl, count, if◌then◌else◌,
}
use absolo_cloud_services.Result.{ok}
use absolo_cloud_services.Runtime.Env.{Env}
use absolo_cloud_services.Runtime.State.{State}
use absolo_cloud_services.Runtime.Action.{pure, in_table, insert}
use absolo_cloud_services.Runtime.Laws.{>>=-eq-ok, >>=_frame, count-insert_done, insert_frame}
use absolo_cloud_services.Schema.Json.{Json}
use absolo_cloud_services.Schema.Mq.{OutboxEvent, Saga}
use absolo_cloud_services.Runtime.Tables.Mq.{outbox, saga_state}
use absolo_cloud_services.Outbox.{publish, create_saga, event_row, saga_row}

module _ ⦃env : Env⦄ where
  pub count-create_saga :
      (kind : String) (context : Json) (s : State) {id : String}
      → (create_saga kind context s).0 ≡ ok id
      → count (λ _. true) (in_table saga_state (create_saga kind context s).1)
        ≡ count (λ _. true) (in_table saga_state s) + 1
  unfolding create_saga
  count-create_saga kind context s e =
      let u = record s { tick = s.tick + 1 + 1 } in
      let row = saga_row ("sag" ⧺ "_" ⧺ env.ulid s.tick) kind context (env.clock (s.tick + 1)) in
      let (_, done, _, state) =
        >>=-eq-ok (insert saga_state row) (λ _. pure ("sag" ⧺ "_" ⧺ env.ulid s.tick)) u e in
      ap (λ v. count (λ _. true) (in_table saga_state v)) state
      ∙ count-insert_done saga_state (λ _. true) row u done

  pub count-publish :
      (topic : String) (payload : Json) (s : State) {x : Unit {0}}
      → (publish topic payload s).0 ≡ ok x
      → count (λ v. v.topic == topic) (in_table outbox (publish topic payload s).1)
        ≡ count (λ v. v.topic == topic) (in_table outbox s) + 1
  unfolding publish
  count-publish topic payload s e =
      let u = record s { tick = s.tick + 1 + 1 } in
      let row = event_row ("evt" ⧺ "_" ⧺ env.ulid s.tick) topic payload (env.clock (s.tick + 1)) in
      count-insert_done outbox (λ v. v.topic == topic) row u e
      ∙ ap (λ b. count (λ v. v.topic == topic) (in_table outbox s) + (if b then 1 else 0))
          (eq_refl topic)

  -- What sees neither the clock nor the sagas.
  pub create_saga_frame :
      {A : Type 0} (f : State → A)
      → ((m : ℕ) (v : env.Table Saga) (u : State) → f (record u { tick = m; saga_state = v }) ≡ f u)
      → (kind : String) (context : Json) (s : State) → f (create_saga kind context s).1 ≡ f s
  unfolding create_saga
  create_saga_frame f blind kind context s =
      let u : State = record s { tick = s.tick + 1 + 1 } in
      let row = saga_row ("sag" ⧺ "_" ⧺ env.ulid s.tick) kind context (env.clock (s.tick + 1)) in
      >>=_frame f (insert saga_state row) (λ _. pure ("sag" ⧺ "_" ⧺ env.ulid s.tick)) u
        (insert_frame saga_state f row u (λ v w. blind w.tick v w)) (λ _ _. refl)
      ∙ blind (s.tick + 1 + 1) s.saga_state s

  -- What sees neither the clock nor the outbox.
  pub publish_frame :
      {A : Type 0} (f : State → A)
      → ((m : ℕ) (v : env.Table OutboxEvent) (u : State)
          → f (record u { tick = m; outbox = v }) ≡ f u)
      → (topic : String) (payload : Json) (s : State) → f (publish topic payload s).1 ≡ f s
  unfolding publish
  publish_frame f blind topic payload s =
      let u : State = record s { tick = s.tick + 1 + 1 } in
      insert_frame outbox f
        (event_row ("evt" ⧺ "_" ⧺ env.ulid s.tick) topic payload (env.clock (s.tick + 1))) u
        (λ v w. blind w.tick v w)
      ∙ blind (s.tick + 1 + 1) s.outbox s
