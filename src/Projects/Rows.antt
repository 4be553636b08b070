-- ===== src/Projects/Rows.antt =====
-- How the operations on projects change the rows of the table.
use absolo_cloud_services.Base.{ℕ, String, ◌≡◌, refl, ap, ◌∙◌, inl, inr, map, head?, filter}
use absolo_cloud_services.Result.{
  Error, not_found, conflict, unauthorized, forbidden, bad_request, unique_violation,
  foreign_key_violation, failure, Result-cases,
}
use absolo_cloud_services.Runtime.Env.{Env}
use absolo_cloud_services.Runtime.State.{State}
use absolo_cloud_services.Runtime.Action.{
  Action, pure, ◌>>=◌, ◌>>◌, or_throw, catch, in_table, insert, update,
}
use absolo_cloud_services.Runtime.Laws.{
  >>=-ok, >>=-err, catch-ok, catch-err, >>=_frame, or_throw_frame,
}
use absolo_cloud_services.Runtime.Laws.{
  >>=-ok, >>=-err, catch-ok, catch-err, >>=_frame, or_throw_frame,
}
use absolo_cloud_services.Schema.Projects.{Project}
use absolo_cloud_services.Runtime.Tables.Projects.{projects}
use absolo_cloud_services.Iam.Auth.{AuthenticatedUser}
use absolo_cloud_services.Projects.{
  ProjectView, to_domain, is_alive, project_not_found, refuse_slug, get_project, change_project,
}
use absolo_cloud_services.Projects.Isolation.{get_project-cases}

module _ ⦃env : Env⦄ where
  refuse_slug_state : (slug : String) (e : Error) (s : State) → (refuse_slug slug e s).1 ≡ s
  unfolding refuse_slug
  refuse_slug_state slug (not_found _) s = refl
  refuse_slug_state slug (conflict _) s = refl
  refuse_slug_state slug (unauthorized _) s = refl
  refuse_slug_state slug (forbidden _) s = refl
  refuse_slug_state slug (bad_request _) s = refl
  refuse_slug_state slug (failure _) s = refl
  refuse_slug_state slug unique_violation s = refl
  refuse_slug_state slug foreign_key_violation s = refl

  unfoldable pub attempted : Project → Action ProjectView
  attempted row = do insert projects row; pure (to_domain row)

  pub attempted_state :
      (row : Project) (slug : String) (s : State)
      → (catch (attempted row) (refuse_slug slug) s).1 ≡ (insert projects row s).1
  unfolding attempted
  attempted_state row slug s = elim (Result-cases (insert projects row s).0) [
    | inl (u, e) ↦
        let step = >>=-ok (insert projects row) (λ _. pure (to_domain row)) s e in
        ap (λ o. o.1) (catch-ok (attempted row) (refuse_slug slug) s (ap (λ o. o.0) step))
        ∙ ap (λ o. o.1) step
    | inr (e, thrown) ↦
        let step = >>=-err (insert projects row) (λ _. pure (to_domain row)) s thrown in
        ap (λ o. o.1) (catch-err (attempted row) (refuse_slug slug) s (ap (λ o. o.0) step))
        ∙ refuse_slug_state slug e (attempted row s).1
        ∙ ap (λ o. o.1) step
  ]

  -- A change leaves the rows that its statement leaves.
  pub change_project_rows :
      (f : ℕ → Project → Project) (id : String) (s : State)
      → (change_project f id s).1.projects
        ≡ (update projects (is_alive id) (f (env.clock s.tick)) s).1.projects
  unfolding change_project
  change_project_rows f id s =
      >>=_frame (λ u. u.projects)
        (or_throw (project_not_found id)
          (head? (map (f (env.clock s.tick)) (filter (is_alive id) (in_table projects s)))))
        (λ row. pure (to_domain row)) _ (or_throw_frame (λ u. u.projects) _ _ _) (λ _ _. refl)

  -- What holds before and after each step that follows on a project holds after both.
  pub after_get_project :
      {A : Type 0} (P : State → Type 0) (user : AuthenticatedUser) (id : String)
      (k : ProjectView → Action A) (s : State)
      → P s
      → ((row : Project) → P (k (to_domain row) s).1)
      → P ((get_project user id >>= k) s).1
  after_get_project P user id k s h step = elim (get_project-cases user s id) [
    | inl (row, there, _, _) ↦
        rw (>>=-ok (get_project user id) k s (ap (λ o. o.0) there))
          (rw (ap (λ o. o.1) there) (step row))
    | inr (e, refused) ↦
        rw (>>=-err (get_project user id) k s (ap (λ o. o.0) refused))
          (rw (ap (λ o. o.1) refused) h)
  ]
