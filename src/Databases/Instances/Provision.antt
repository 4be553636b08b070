-- ===== src/Databases/Instances/Provision.antt =====
-- What the provisioning of a database leaves, whether it returns or throws.
use absolo_cloud_services.Base.{
  ◌+◌, String, ◌⧺◌, ◌≡◌, refl, sym, ap, ◌∙◌, ◌⊎◌, inl, inr, true, ◌==◌, eq_refl, count,
  if◌then◌else◌,
}
use absolo_cloud_services.Result.{Result, ok, err, Error, Result-cases}
use absolo_cloud_services.Runtime.Env.{Env}
use absolo_cloud_services.Runtime.State.{State}
use absolo_cloud_services.Runtime.Action.{pure, ◌>>=◌, in_table, insert}
use absolo_cloud_services.Runtime.Laws.{
  >>=-eq-ok, transaction-ok, transaction-err, count-insert_done, insert_frame,
}
use absolo_cloud_services.Schema.Databases.{ManagedDatabase}
use absolo_cloud_services.Runtime.Tables.Databases.{managed_databases, maintenance_windows}
use absolo_cloud_services.Runtime.Tables.Mq.{outbox, saga_state}
use absolo_cloud_services.Outbox.{publish, create_saga}
use absolo_cloud_services.Outbox.Counts.{
  count-create_saga, create_saga_frame, count-publish, publish_frame,
}
use absolo_cloud_services.Databases.Instances.{
  ProvisionOptions, database_row, default_window, provision_context, provision_request,
  encrypt_password, store_database, provision_database,
}

module _ ⦃env : Env⦄ where
  -- What one provisioned database leaves: its row, its window, one saga and one request.
  abbrev pub Provisioned : ManagedDatabase → State → State → Type 0
  Provisioned d s s' =
      (d.status ≡ "provisioning")
      × (count (λ r. r.id == d.id) (in_table managed_databases s')
          ≡ count (λ r. r.id == d.id) (in_table managed_databases s) + 1)
      × (count (λ w. w.database_id == d.id) (in_table maintenance_windows s')
          ≡ count (λ w. w.database_id == d.id) (in_table maintenance_windows s) + 1)
      × (count (λ _. true) (in_table saga_state s') ≡ count (λ _. true) (in_table saga_state s) + 1)
      × (count (λ v. v.topic == "database.provision.requested") (in_table outbox s')
          ≡ count (λ v. v.topic == "database.provision.requested") (in_table outbox s) + 1)

  abbrev database_in : ManagedDatabase → Result ManagedDatabase → ManagedDatabase
  database_in d (ok r) = r
  database_in d (err e) = d

  store_database_counts :
      (opts : ProvisionOptions) (id enc : String) (s : State) {d : ManagedDatabase}
      → (store_database opts id enc s).0 ≡ ok d
      → Provisioned d s (store_database opts id enc s).1
  unfolding store_database
  store_database_counts opts id enc s {d} e =
      let u : State = record s { tick = s.tick + 1 } in
      let row = database_row opts id enc (env.clock s.tick) in
      let window = default_window id in
      let (_, d1, e1, st1) =
        >>=-eq-ok (insert managed_databases row)
          (λ _. insert maintenance_windows window >>= λ _.
            create_saga "DATABASE_PROVISION" (provision_context opts id) >>= λ _.
            publish "database.provision.requested" (provision_request opts id) >>= λ _. pure row)
          u e in
      let s1 = (insert managed_databases row u).1 in
      let (_, d2, e2, st2) =
        >>=-eq-ok (insert maintenance_windows window)
          (λ _. create_saga "DATABASE_PROVISION" (provision_context opts id) >>= λ _.
            publish "database.provision.requested" (provision_request opts id) >>= λ _. pure row)
          s1 e1 in
      let s2 = (insert maintenance_windows window s1).1 in
      let (_, d3, e3, st3) =
        >>=-eq-ok (create_saga "DATABASE_PROVISION" (provision_context opts id))
          (λ _.
            publish "database.provision.requested" (provision_request opts id) >>= λ _. pure row)
          s2 e2 in
      let s3 = (create_saga "DATABASE_PROVISION" (provision_context opts id) s2).1 in
      let (_, d4, e4, st4) =
        >>=-eq-ok (publish "database.provision.requested" (provision_request opts id))
          (λ _. pure row) s3 e3 in
      let state = st1 ∙ st2 ∙ st3 ∙ st4 in
      rw (sym (ap (database_in row) e4)) (
        refl,
        ap (λ v. count (λ r. r.id == id) (in_table managed_databases v)) state
            ∙ ap (λ t. count (λ r. r.id == id) (env.rows t))
                (publish_frame (λ v. v.managed_databases) (λ _ _ _. refl)
                    "database.provision.requested" (provision_request opts id) s3
                  ∙ create_saga_frame (λ v. v.managed_databases) (λ _ _ _. refl)
                      "DATABASE_PROVISION" (provision_context opts id) s2
                  ∙ insert_frame maintenance_windows (λ v. v.managed_databases) window s1
                      (λ _ _. refl))
            ∙ count-insert_done managed_databases (λ r. r.id == id) row u d1
            ∙ ap
                (λ b. count (λ r. r.id == id) (in_table managed_databases s) + (if b then 1 else 0))
                (eq_refl id),
        ap (λ v. count (λ w. w.database_id == id) (in_table maintenance_windows v)) state
            ∙ ap (λ t. count (λ w. w.database_id == id) (env.rows t))
                (publish_frame (λ v. v.maintenance_windows) (λ _ _ _. refl)
                    "database.provision.requested" (provision_request opts id) s3
                  ∙ create_saga_frame (λ v. v.maintenance_windows) (λ _ _ _. refl)
                      "DATABASE_PROVISION" (provision_context opts id) s2)
            ∙ count-insert_done maintenance_windows (λ w. w.database_id == id) window s1 d2
            ∙ ap
                (λ b.
                  count (λ w. w.database_id == id) (in_table maintenance_windows s1)
                  + (if b then 1 else 0))
                (eq_refl id)
            ∙ ap (λ t. count (λ w. w.database_id == id) (env.rows t) + 1)
                (insert_frame managed_databases (λ v. v.maintenance_windows) row u (λ _ _. refl)),
        ap (λ v. count (λ _. true) (in_table saga_state v)) state
            ∙ ap (λ t. count (λ _. true) (env.rows t))
                (publish_frame (λ v. v.saga_state) (λ _ _ _. refl) "database.provision.requested"
                  (provision_request opts id) s3)
            ∙ count-create_saga "DATABASE_PROVISION" (provision_context opts id) s2 d3
            ∙ ap (λ t. count (λ _. true) (env.rows t) + 1)
                (insert_frame maintenance_windows (λ v. v.saga_state) window s1 (λ _ _. refl)
                  ∙ insert_frame managed_databases (λ v. v.saga_state) row u (λ _ _. refl)),
        ap (λ v. count (λ o. o.topic == "database.provision.requested") (in_table outbox v)) state
            ∙ count-publish "database.provision.requested" (provision_request opts id) s3 d4
            ∙ ap (λ t. count (λ o. o.topic == "database.provision.requested") (env.rows t) + 1)
                (create_saga_frame (λ v. v.outbox) (λ _ _ _. refl) "DATABASE_PROVISION"
                    (provision_context opts id) s2
                  ∙ insert_frame maintenance_windows (λ v. v.outbox) window s1 (λ _ _. refl)
                  ∙ insert_frame managed_databases (λ v. v.outbox) row u (λ _ _. refl)),
      )

  -- A provisioning that throws leaves no database, no window, no saga and no event. One that
  -- returns leaves the database with one window, one saga and one request to provision it.
  pub provision_database_atomic :
      (opts : ProvisionOptions) (s : State)
      → let (r, s') = provision_database opts s in
        ((e : Error) × (r ≡ err e)
          × (s'.managed_databases ≡ s.managed_databases)
          × (s'.maintenance_windows ≡ s.maintenance_windows)
          × (s'.saga_state ≡ s.saga_state)
          × (s'.outbox ≡ s.outbox))
        ⊎ ((d : ManagedDatabase) × (r ≡ ok d) × Provisioned d s s')
  unfolding provision_database
  provision_database_atomic opts s =
      let u : State = record s { tick = s.tick + 1 + 1 } in
      let id = "mdb" ⧺ "_" ⧺ env.ulid s.tick in
      let enc = encrypt_password (env.random_bytes (s.tick + 1) 24 "base64url") in
      elim (Result-cases (store_database opts id enc u).0) [
        | inl (d, done) ↦
            let same = transaction-ok (store_database opts id enc) u done in
            inr (
              d,
              ap (λ o. o.0) same,
              rw (ap (λ o. o.1) same) (store_database_counts opts id enc u {d = d} done),
            )
        | inr (e, thrown) ↦
            let same = transaction-err (store_database opts id enc) u thrown in
            inl (
              e,
              ap (λ o. o.0) same,
              ap (λ o. o.1.managed_databases) same,
              ap (λ o. o.1.maintenance_windows) same,
              ap (λ o. o.1.saga_state) same,
              ap (λ o. o.1.outbox) same,
            )
      ]
