-- ===== src/Storage/Buckets/Slugs.antt =====
-- Which slugs an organization's buckets have.
use absolo_cloud_services.Base.{
  ℕ, ◌+◌, ◌≤◌, String, ◌⧺◌, ◌≡◌, refl, ap, ◌∙◌, ◌⊎◌, inl, inr, true, false, Bool-cases, some,
  eq_iff, ltb, filter, length, count, length-filter, arith,
}
use absolo_cloud_services.Result.{err, conflict, Result-cases}
use absolo_cloud_services.Runtime.Env.{Env}
use absolo_cloud_services.Runtime.State.{State}
use absolo_cloud_services.Runtime.Action.{Action, pure, ◌>>=◌, in_table, insert}
use absolo_cloud_services.Runtime.Laws.{>>=-ok, >>=-err, >>-pure, insert_unique}
use absolo_cloud_services.Runtime.Tables.Storage.{buckets}
use absolo_cloud_services.Storage.AccessKeys.{
  KeyOptions, create_access_key, create_access_key_frame,
}
use absolo_cloud_services.Storage.Buckets.{
  BucketOptions, CreatedBucket, bucket_row, has_slug, store_bucket, refuse_or_store, create_bucket,
}

module _ ⦃env : Env⦄ where
  -- Each slug stands once at most among an organization's buckets.
  abbrev pub HasDistinctSlugs : State → Type 0
  HasDistinctSlugs s =
      (org_id slug : String) → count (has_slug org_id slug) (in_table buckets s) ≤ 1

  -- The rest after the row is there.
  with_key : BucketOptions → String → ℕ → Action CreatedBucket
  with_key opts id at = do
    created ← create_access_key (record {
      owner_kind = "org";
      owner_id = opts.org_id;
      scope = "bucket";
      bucket_id = some id;
    })
    pure (record {
      bucket = bucket_row opts id at;
      access_key = created.key.access_key;
      secret_key = created.secret_key;
    })

  with_key_frame :
      (opts : BucketOptions) (id : String) (at : ℕ) (s : State)
      → (with_key opts id at s).1.buckets ≡ s.buckets
  unfolding with_key
  with_key_frame opts id at s =
      let key : KeyOptions = record {
        owner_kind = "org";
        owner_id = opts.org_id;
        scope = "bucket";
        bucket_id = some id;
      } in
      ap (λ u. u.buckets)
        (>>-pure (create_access_key key)
          (λ created. record {
            bucket = bucket_row opts id at;
            access_key = created.key.access_key;
            secret_key = created.secret_key;
          })
          s)
      ∙ create_access_key_frame (λ u. u.buckets) (λ _ _ _. refl) key s

  store_bucket_table :
      (opts : BucketOptions) (id : String) (s : State)
      → (store_bucket opts id s).1.buckets
        ≡ (insert buckets
            (bucket_row opts id (env.clock s.tick))
            (record s { tick = s.tick + 1 })).1.buckets
  unfolding store_bucket with_key
  store_bucket_table opts id s =
      let u : State = record s { tick = s.tick + 1 } in
      let row = bucket_row opts id (env.clock s.tick) in
      elim (Result-cases (insert buckets row u).0) [
        | inl (x, e) ↦
            ap (λ o. o.1.buckets)
              (>>=-ok (insert buckets row) (λ _. with_key opts id (env.clock s.tick)) u e)
            ∙ with_key_frame opts id (env.clock s.tick) (insert buckets row u).1
        | inr (x, e) ↦
            ap (λ o. o.1.buckets)
              (>>=-err (insert buckets row) (λ _. with_key opts id (env.clock s.tick)) u e)
      ]

  positive : (n : ℕ) → ltb 0 n ≡ true → 1 ≤ n
  positive n h = ground arith

  zero_of : (n : ℕ) → ltb 0 n ≡ false → n ≡ 0
  zero_of n h = ground arith

  -- Where the slugs are distinct: one that the organization uses, also for a deleted bucket, is
  -- refused with a conflict and the buckets stay as they are, and in every case the slugs are
  -- still distinct after the call, whatever it returns or throws.
  pub create_bucket_slugs :
      (opts : BucketOptions) (s : State)
      → HasDistinctSlugs s
      → let (r, s') = create_bucket opts s in
        (((1 ≤ count (has_slug opts.org_id opts.slug) (in_table buckets s))
            × (r ≡ err (conflict ("Bucket slug \"" ⧺ opts.slug ⧺ "\" already exists in this org")))
            × (s'.buckets ≡ s.buckets))
          ⊎ (count (has_slug opts.org_id opts.slug) (in_table buckets s) ≡ 0))
        × HasDistinctSlugs s'
  unfolding create_bucket refuse_or_store
  create_bucket_slugs opts s h =
      elim (Bool-cases
        (ltb 0 (length (filter (has_slug opts.org_id opts.slug) (in_table buckets s))))) [
          | inl taken ↦ rw taken (
            inl (
              omega (
                arith,
                positive _ taken,
                length-filter (has_slug opts.org_id opts.slug) (in_table buckets s),
              ),
              refl,
              refl,
            ),
            h,
          )
          | inr free ↦
              let u : State = record s { tick = s.tick + 1 } in
              let id = "bkt" ⧺ "_" ⧺ env.ulid s.tick in
              let row = bucket_row opts id (env.clock u.tick) in
              rw free (
                inr (
                    omega (
                      arith,
                      zero_of _ free,
                      length-filter (has_slug opts.org_id opts.slug) (in_table buckets s),
                    )),
                λ org_id slug. omega (
                  arith,
                  ap (λ t. count (has_slug org_id slug) (env.rows t))
                      (store_bucket_table opts id u),
                  insert_unique buckets (has_slug org_id slug) row (record u { tick = u.tick + 1 })
                      (λ r' e e'. ground (
                        arith,
                        eq_iff opts.org_id org_id,
                        eq_iff r'.org_id org_id,
                        eq_iff opts.slug slug,
                        eq_iff r'.slug slug,
                        eq_iff opts.org_id r'.org_id,
                        eq_iff opts.slug r'.slug,
                      ))
                      (h org_id slug),
                ),
              )
        ]
