-- ===== src/Storage/Buckets/Deletion.antt =====
-- What is left of a deleted bucket.
use absolo_cloud_services.Base.{
  ◌≤◌, count_pos_of_head?, String, ◌≡◌, refl, ap, ◌∙◌, ◌⊎◌, inl, inr, ◌&&◌, not, some, is_some,
  some_eq, ◌==◌, head?, filter, count, count-false, head?-filter-none, Option-cases, arith,
}
use absolo_cloud_services.Result.{ok, err}
use absolo_cloud_services.Runtime.Env.{Env}
use absolo_cloud_services.Runtime.State.{State}
use absolo_cloud_services.Runtime.Action.{in_table}
use absolo_cloud_services.Runtime.Laws.{or_throw-none, or_throw-some, count-update_none}
use absolo_cloud_services.Runtime.Tables.Storage.{buckets, access_keys}
use absolo_cloud_services.Storage.Buckets.{bucket_not_found, remove_bucket, delete_bucket}

module _ ⦃env : Env⦄ where
  -- To delete a bucket that is not there throws and changes nothing. To delete one that is there
  -- returns: no bucket with the id is listed any more, and no access key of it is left.
  pub delete_bucket_gone :
      (id : String) (s : State)
      → let (r, s') = delete_bucket id s in
        ((count (λ b. b.id == id) (in_table buckets s) ≡ 0)
          × (r ≡ err (bucket_not_found id))
          × (s' ≡ s))
        ⊎ ((1 ≤ count (λ b. b.id == id) (in_table buckets s))
            × (r ≡ ok tt)
            × (count (λ b. b.id == id && not (is_some b.deleted_at)) (in_table buckets s') ≡ 0)
            × (count (λ k. some_eq k.bucket_id id) (in_table access_keys s') ≡ 0))
  unfolding delete_bucket remove_bucket
  delete_bucket_gone id s =
      elim (Option-cases (head? (filter (λ b. b.id == id) (in_table buckets s)))) [
        | inl e ↦
            let same =
              or_throw-none (bucket_not_found id)
                (head? (filter (λ b. b.id == id) (in_table buckets s))) (λ _. remove_bucket id) s
                e in
            inl (
              head?-filter-none (λ b. b.id == id) (in_table buckets s) e,
              ap (λ o. o.0) same,
              ap (λ o. o.1) same,
            )
        | inr (b, e) ↦
            let same =
              or_throw-some (bucket_not_found id)
                (head? (filter (λ b. b.id == id) (in_table buckets s))) (λ _. remove_bucket id) s
                e in
            inr (
              count_pos_of_head? (λ b. b.id == id) (in_table buckets s) e,
              ap (λ o. o.0) same,
              ap (λ o. count (λ b. b.id == id && not (is_some b.deleted_at)) (in_table buckets o.1))
                    same
                  ∙ count-update_none (λ b. b.id == id && not (is_some b.deleted_at))
                      (λ r. r.id == id) (λ r. record r { deleted_at = some (env.clock s.tick) })
                      s.buckets (λ r h. ground arith) (λ r h. rw h refl),
              ap (λ o. count (λ k. some_eq k.bucket_id id) (in_table access_keys o.1)) same
                  ∙ env.count-delete_where (λ k. some_eq k.bucket_id id)
                      (λ k. some_eq k.bucket_id id) s.access_keys
                  ∙ count-false _ (in_table access_keys s) (λ r. ground arith),
            )
      ]
