-- ===== src/Databases/Users/Deletion.antt =====
-- What is left of a deleted user of a database: `deleteDatabaseUser`.
use absolo_cloud_services.Base.{
  ◌≤◌, count_pos_of_head?, String, ◌⧺◌, ◌≡◌, ap, ◌∙◌, ◌⊎◌, inl, inr, ◌==◌, head?, filter, count,
  count-false, head?-filter-none, Option-cases, arith,
}
use absolo_cloud_services.Result.{ok, err, not_found}
use absolo_cloud_services.Runtime.Env.{Env}
use absolo_cloud_services.Runtime.State.{State}
use absolo_cloud_services.Runtime.Action.{in_table, delete}
use absolo_cloud_services.Runtime.Laws.{or_throw-none, or_throw-some}
use absolo_cloud_services.Runtime.Tables.Databases.{database_users}
use absolo_cloud_services.Databases.Users.{is_user, delete_database_user}

module _ ⦃env : Env⦄ where
  -- Where the database has no user with the id, to delete it throws and changes nothing, so another
  -- database's user stays. Where it has one, the call returns, and no user with the id is left.
  pub delete_database_user_gone :
      (database_id user_id : String) (s : State)
      → let (r, s') = delete_database_user database_id user_id s in
        ((count (is_user database_id user_id) (in_table database_users s) ≡ 0)
          × (r ≡ err (not_found ("User " ⧺ user_id ⧺ " not found")))
          × (s' ≡ s))
        ⊎ ((1 ≤ count (is_user database_id user_id) (in_table database_users s))
            × (r ≡ ok tt)
            × (count (λ u. u.id == user_id) (in_table database_users s') ≡ 0))
  delete_database_user_gone database_id user_id s =
      elim (Option-cases
        (head? (filter (is_user database_id user_id) (in_table database_users s)))) [
          | inl e ↦
              let same =
                or_throw-none (not_found ("User " ⧺ user_id ⧺ " not found"))
                  (head? (filter (is_user database_id user_id) (in_table database_users s)))
                  (λ _. delete database_users (λ r. r.id == user_id)) s e in
              inl (
                head?-filter-none (is_user database_id user_id) (in_table database_users s) e,
                ap (λ o. o.0) same,
                ap (λ o. o.1) same,
              )
          | inr (b, e) ↦
              let same =
                or_throw-some (not_found ("User " ⧺ user_id ⧺ " not found"))
                  (head? (filter (is_user database_id user_id) (in_table database_users s)))
                  (λ _. delete database_users (λ r. r.id == user_id)) s e in
              inr (
                count_pos_of_head? (is_user database_id user_id) (in_table database_users s) e,
                ap (λ o. o.0) same,
                ap (λ o. count (λ u. u.id == user_id) (in_table database_users o.1)) same
                    ∙ env.count-delete_where (λ u. u.id == user_id) (λ u. u.id == user_id)
                        s.database_users
                    ∙ count-false _ (in_table database_users s) (λ r. ground arith),
              )
        ]
