-- ===== src/Bindings/Binding/Once.antt =====
-- How often a resource is bound to an app.
use absolo_cloud_services.Base.{
  ℕ, ◌+◌, ◌≤◌, String, ◌⧺◌, ◌≡◌, refl, ap, ◌∙◌, ◌⊎◌, inl, inr, true, false, ◌&&◌, Bool-cases, some,
  or_default, ◌==◌, eq_refl, ltb, head?, filter, length, count, length-filter, and_intro,
  if◌then◌else◌, arith,
}
use absolo_cloud_services.Result.{err, is_ok, conflict, Result-cases}
use absolo_cloud_services.Runtime.Env.{Env}
use absolo_cloud_services.Runtime.State.{State}
use absolo_cloud_services.Runtime.Action.{pure, ◌>>=◌, or_throw, in_table, insert}
use absolo_cloud_services.Runtime.Laws.{
  >>=-ok, >>=-err, >>=_frame, or_throw_frame, count-insert, count-insert_done,
}
use absolo_cloud_services.Runtime.Tables.Bindings.{bindings}
use absolo_cloud_services.Runtime.Tables.Databases.{managed_databases}
use absolo_cloud_services.Runtime.Tables.Storage.{buckets}
use absolo_cloud_services.Storage.Buckets.{bucket_not_found}
use absolo_cloud_services.Databases.Instances.{database_not_found}
use absolo_cloud_services.Databases.Users.{create_database_user_frame, create_database_user}
use absolo_cloud_services.Storage.AccessKeys.{
  KeyOptions, create_access_key_frame, create_access_key,
}
use absolo_cloud_services.Bindings.Binding.{
  app_username, engine_prefix, BindOptions, binding_row, is_bound, bind_database, bind_bucket,
  credentials, store_binding, refuse_or_bind, bind_resource,
}

module _ ⦃env : Env⦄ where
  store_binding_counts :
      (opts : BindOptions) (prefix : String) (s : State)
      → count (is_bound opts) (in_table bindings (store_binding opts prefix s).1)
        ≡ count (is_bound opts) (in_table bindings s)
          + (if is_ok (store_binding opts prefix s).0 then 1 else 0)
  unfolding store_binding
  store_binding_counts opts prefix s =
      let u : State = record s { tick = s.tick + 1 + 1 } in
      let row = binding_row opts prefix ("bnd" ⧺ "_" ⧺ env.ulid s.tick) (env.clock (s.tick + 1)) in
      elim (Result-cases (insert bindings row u).0) [
        | inl (x, e) ↦
            let step = >>=-ok (insert bindings row) (λ _. pure row) u e in
            rw step (
              count-insert_done bindings (is_bound opts) row u e
              ∙ ap (λ b. count (is_bound opts) (in_table bindings s) + (if b then 1 else 0))
                  (and_intro _ _ (and_intro _ _ (eq_refl opts.app_id) (eq_refl opts.resource_type))
                    (eq_refl opts.resource_id)))
        | inr (x, e) ↦
            let step = >>=-err (insert bindings row) (λ _. pure row) u e in
            rw step (
              count-insert bindings (is_bound opts) row u
              ∙ ap
                  (λ o.
                    count (is_bound opts) (in_table bindings s)
                    + (if is_ok o && is_bound opts row then 1 else 0))
                  e)
      ]

  abbrev app_key : BindOptions → KeyOptions
  app_key opts = record {
    owner_kind = "app";
    owner_id = opts.app_id;
    scope = "bucket";
    bucket_id = some opts.resource_id;
  }

  credentials_frame :
      (opts : BindOptions) (s : State) → (credentials opts s).1.bindings ≡ s.bindings
  unfolding credentials bind_database bind_bucket
  credentials_frame opts s = elim (Bool-cases (opts.resource_type == "database")) [
    | inl d ↦ rw d (
        >>=_frame (λ u. u.bindings)
          (or_throw (database_not_found opts.resource_id)
            (head? (filter (λ r. r.id == opts.resource_id) (in_table managed_databases s))))
          (λ db.
            create_database_user opts.resource_id (app_username opts.app_id) "app"
              (some opts.app_id)
            >>= λ _.
                pure (or_default opts.env_prefix (or_default (engine_prefix db.engine) "DATABASE")))
          s (or_throw_frame (λ u. u.bindings) _ _ s)
          (λ db u.
            >>=_frame (λ u. u.bindings)
              (create_database_user opts.resource_id (app_username opts.app_id) "app"
                (some opts.app_id))
              (λ _.
                pure (or_default opts.env_prefix (or_default (engine_prefix db.engine) "DATABASE")))
              u
              (create_database_user_frame (λ u. u.bindings) (λ _ _ _. refl) opts.resource_id
                (app_username opts.app_id) "app" (some opts.app_id) u)
              (λ _ _. refl)))
    | inr not_d ↦ elim (Bool-cases (opts.resource_type == "bucket")) [
      | inl b ↦
          rw (not_d, b)
            (>>=_frame (λ u. u.bindings)
              (or_throw (bucket_not_found opts.resource_id)
                (head? (filter (λ r. r.id == opts.resource_id) (in_table buckets s))))
              (λ _.
                create_access_key (app_key opts) >>= λ _. pure (or_default opts.env_prefix "S3"))
              s (or_throw_frame (λ u. u.bindings) _ _ s)
              (λ _ u.
                >>=_frame (λ u. u.bindings) (create_access_key (app_key opts))
                  (λ _. pure (or_default opts.env_prefix "S3")) u
                  (create_access_key_frame (λ u. u.bindings) (λ _ _ _. refl) (app_key opts) u)
                  (λ _ _. refl)))
      | inr not_b ↦ rw (not_d, not_b) refl
    ]
  ]

  positive : (n : ℕ) → ltb 0 n ≡ true → 1 ≤ n
  positive n h = ground arith

  zero_of : (n : ℕ) → ltb 0 n ≡ false → n ≡ 0
  zero_of n h = ground arith

  bound_counts :
      (opts : BindOptions) (s : State)
      → count (is_bound opts) (in_table bindings s) ≡ 0
      → count (is_bound opts) (in_table bindings ((credentials opts >>= store_binding opts) s).1)
        ≡ (if is_ok ((credentials opts >>= store_binding opts) s).0 then 1 else 0)
  bound_counts opts s free = elim (Result-cases (credentials opts s).0) [
    | inl (prefix, e) ↦
        let step = >>=-ok (credentials opts) (store_binding opts) s e in
        rw step (
          store_binding_counts opts prefix (credentials opts s).1
          ∙ ap
              (λ n.
                n + (if is_ok (store_binding opts prefix (credentials opts s).1).0 then 1 else 0))
              (ap (λ t. count (is_bound opts) (env.rows t)) (credentials_frame opts s) ∙ free)
          ∙ omega arith)
    | inr (e, thrown) ↦
        let step = >>=-err (credentials opts) (store_binding opts) s thrown in
        rw step (ap (λ t. count (is_bound opts) (env.rows t)) (credentials_frame opts s) ∙ free)
  ]

  -- Binding a resource that the app has already throws and changes nothing. Otherwise the app has
  -- it once if the call returns, and not at all if it throws.
  pub bind_resource_once :
      (opts : BindOptions) (s : State)
      → let (r, s') = bind_resource opts s in
        ((1 ≤ count (is_bound opts) (in_table bindings s))
          × (r ≡ err (conflict "Resource is already bound to this app"))
          × (s' ≡ s))
        ⊎ ((count (is_bound opts) (in_table bindings s) ≡ 0)
            × (count (is_bound opts) (in_table bindings s') ≡ (if is_ok r then 1 else 0)))
  unfolding bind_resource refuse_or_bind
  bind_resource_once opts s =
      elim (Bool-cases (ltb 0 (length (filter (is_bound opts) (in_table bindings s))))) [
        | inl bound ↦ inl (
          omega (arith, positive _ bound, length-filter (is_bound opts) (in_table bindings s)),
          rw bound refl,
          rw bound refl,
        )
        | inr free ↦ inr (
          omega (arith, zero_of _ free, length-filter (is_bound opts) (in_table bindings s)),
          rw free (
              bound_counts opts s (
                omega
                  (arith, zero_of _ free, length-filter (is_bound opts) (in_table bindings s)))),
        )
      ]
