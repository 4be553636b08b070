-- ===== src/Apps/Deployments.antt =====
-- What a request to deploy an app leaves, whether it returns or throws.
use absolo_cloud_services.Base.{
  ◌+◌, String, ◌⧺◌, ◌≡◌, refl, sym, ap, ◌∙◌, ◌⊎◌, inl, inr, true, Option, none, some, ◌==◌, eq_refl,
  head?, filter, count, if◌then◌else◌,
}
use absolo_cloud_services.Result.{Result, ok, err, Error, not_found, Result-cases}
use absolo_cloud_services.Runtime.Env.{Env}
use absolo_cloud_services.Runtime.State.{State}
use absolo_cloud_services.Runtime.Action.{pure, ◌>>=◌, or_throw, in_table, insert}
use absolo_cloud_services.Runtime.Laws.{
  >>=-eq-ok, transaction-ok, transaction-err, count-insert_done, insert_frame,
}
use absolo_cloud_services.Schema.Compute.{App, Deployment}
use absolo_cloud_services.Runtime.Tables.Compute.{apps, deployments}
use absolo_cloud_services.Runtime.Tables.Mq.{outbox, saga_state}
use absolo_cloud_services.Outbox.Counts.{
  count-create_saga, create_saga_frame, count-publish, publish_frame,
}
use absolo_cloud_services.Outbox.{publish, create_saga}
use absolo_cloud_services.Apps.{
  deployment_row, saga_context, build_request, queue_deployment, start_deployment, deploy_app,
}

module _ ⦃env : Env⦄ where
  -- What one queued deployment leaves: its row, one saga and one request to build.
  abbrev pub Queued : Deployment → State → State → Type 0
  Queued d s s' =
      (d.status ≡ "queued")
      × (count (λ r. r.id == d.id) (in_table deployments s')
          ≡ count (λ r. r.id == d.id) (in_table deployments s) + 1)
      × (count (λ _. true) (in_table saga_state s') ≡ count (λ _. true) (in_table saga_state s) + 1)
      × (count (λ v. v.topic == "build.requested") (in_table outbox s')
          ≡ count (λ v. v.topic == "build.requested") (in_table outbox s) + 1)

  or_throw_state : {A : Type 0} (e : Error) (o : Option A) (s : State) → (or_throw e o s).1 ≡ s
  or_throw_state e none s = refl
  or_throw_state e (some a) s = refl

  abbrev deployment_in : Deployment → Result Deployment → Deployment
  deployment_in d (ok r) = r
  deployment_in d (err e) = d

  queue_deployment_counts :
      (app_id version_id : String) (sha : Option String) (app : App) (s : State) {d : Deployment}
      → (queue_deployment app_id version_id sha app s).0 ≡ ok d
      → Queued d s (queue_deployment app_id version_id sha app s).1
  unfolding queue_deployment
  queue_deployment_counts app_id version_id sha app s {d} e =
      let u : State = record s { tick = s.tick + 1 + 1 } in
      let id = "dep" ⧺ "_" ⧺ env.ulid s.tick in
      let row = deployment_row id app version_id sha (env.clock (s.tick + 1)) in
      let (_, d1, e1, st1) =
        >>=-eq-ok (insert deployments row)
          (λ _. create_saga "APP_DEPLOYMENT" (saga_context id app) >>= λ sid.
            publish "build.requested" (build_request sid id app_id app) >>= λ _. pure row)
          u e in
      let s1 = (insert deployments row u).1 in
      let (sid, d2, e2, st2) =
        >>=-eq-ok (create_saga "APP_DEPLOYMENT" (saga_context id app))
          (λ sid. publish "build.requested" (build_request sid id app_id app) >>= λ _. pure row) s1
          e1 in
      let s2 = (create_saga "APP_DEPLOYMENT" (saga_context id app) s1).1 in
      let (_, d3, e3, st3) =
        >>=-eq-ok (publish "build.requested" (build_request sid id app_id app)) (λ _. pure row) s2
          e2 in
      let saga_deployments =
        create_saga_frame (λ v. v.deployments) (λ _ _ _. refl) "APP_DEPLOYMENT"
          (saga_context id app) s1 in
      let saga_outbox =
        create_saga_frame (λ v. v.outbox) (λ _ _ _. refl) "APP_DEPLOYMENT" (saga_context id app)
          s1 in
      let saga_count = count-create_saga "APP_DEPLOYMENT" (saga_context id app) s1 d2 in
      let event_deployments =
        publish_frame (λ v. v.deployments) (λ _ _ _. refl) "build.requested"
          (build_request sid id app_id app) s2 in
      let event_sagas =
        publish_frame (λ v. v.saga_state) (λ _ _ _. refl) "build.requested"
          (build_request sid id app_id app) s2 in
      let event_count = count-publish "build.requested" (build_request sid id app_id app) s2 d3 in
      let state = st1 ∙ st2 ∙ st3 in
      rw (sym (ap (deployment_in row) e3)) (
        refl,
        ap (λ v. count (λ r. r.id == id) (in_table deployments v)) state
            ∙ ap (λ t. count (λ r. r.id == id) (env.rows t)) (event_deployments ∙ saga_deployments)
            ∙ count-insert_done deployments (λ r. r.id == id) row u d1
            ∙ ap (λ b. count (λ r. r.id == id) (in_table deployments s) + (if b then 1 else 0))
                (eq_refl id),
        ap (λ v. count (λ _. true) (in_table saga_state v)) state
            ∙ ap (λ t. count (λ _. true) (env.rows t)) event_sagas
            ∙ saga_count
            ∙ ap (λ t. count (λ _. true) (env.rows t) + 1)
                (insert_frame deployments (λ v. v.saga_state) row u (λ _ _. refl)),
        ap (λ v. count (λ o. o.topic == "build.requested") (in_table outbox v)) state
            ∙ event_count
            ∙ ap (λ t. count (λ o. o.topic == "build.requested") (env.rows t) + 1)
                (saga_outbox ∙ insert_frame deployments (λ v. v.outbox) row u (λ _ _. refl)),
      )

  start_deployment_counts :
      (app_id version_id : String) (sha : Option String) (s : State) {d : Deployment}
      → (start_deployment app_id version_id sha s).0 ≡ ok d
      → Queued d s (start_deployment app_id version_id sha s).1
  unfolding start_deployment
  start_deployment_counts app_id version_id sha s {d} e =
      let (app, found, done, state) =
        >>=-eq-ok
          (or_throw (not_found ("App " ⧺ app_id ⧺ " not found"))
            (head? (filter (λ r. r.id == app_id) (in_table apps s))))
          (λ app. queue_deployment app_id version_id sha app) s e in
      let same =
        or_throw_state (not_found ("App " ⧺ app_id ⧺ " not found"))
          (head? (filter (λ r. r.id == app_id) (in_table apps s))) s in
      rw (state, same)
        (queue_deployment_counts app_id version_id sha app s {d = d} (rw same at done))

  -- A call that throws leaves no deployment, no saga and no event. One that returns has queued the
  -- deployment with one saga and one request to build it.
  pub deploy_app_atomic :
      (app_id version_id : String) (sha : Option String) (s : State)
      → let (r, s') = deploy_app app_id version_id sha s in
        ((e : Error) × (r ≡ err e)
          × (s'.deployments ≡ s.deployments)
          × (s'.saga_state ≡ s.saga_state)
          × (s'.outbox ≡ s.outbox))
        ⊎ ((d : Deployment) × (r ≡ ok d) × Queued d s s')
  unfolding deploy_app
  deploy_app_atomic app_id version_id sha s =
      elim (Result-cases (start_deployment app_id version_id sha s).0) [
        | inl (d, done) ↦
            let same = transaction-ok (start_deployment app_id version_id sha) s done in
            inr (
              d,
              ap (λ o. o.0) same,
              rw (ap (λ o. o.1) same)
                  (start_deployment_counts app_id version_id sha s {d = d} done),
            )
        | inr (e, thrown) ↦
            let same = transaction-err (start_deployment app_id version_id sha) s thrown in
            inl (
              e,
              ap (λ o. o.0) same,
              ap (λ o. o.1.deployments) same,
              ap (λ o. o.1.saga_state) same,
              ap (λ o. o.1.outbox) same,
            )
      ]
