-- ===== src/Projects/Additions.antt =====
-- How many projects pass a test after one is created or changed.
use absolo_cloud_services.Base.{
  ℕ, ◌+◌, String, ◌≡◌, refl, ap, ◌∙◌, inl, inr, Bool, false, ◌&&◌, Bool-cases, count, if◌then◌else◌,
  arith,
}
use absolo_cloud_services.Runtime.Env.{Env}
use absolo_cloud_services.Runtime.State.{State}
use absolo_cloud_services.Runtime.Action.{pure, ◌>>◌, in_table}
use absolo_cloud_services.Runtime.Laws.{>>-pure, count-insert, count-update_keeps}
use absolo_cloud_services.Runtime.Laws.{>>-pure, count-insert, count-update_keeps}
use absolo_cloud_services.Schema.Projects.{Project}
use absolo_cloud_services.Runtime.Tables.Projects.{projects}
use absolo_cloud_services.Iam.Auth.{AuthenticatedUser}
use absolo_cloud_services.Projects.{
  CreateProjectRequest, UpdateProjectRequest, is_alive, project_row, store_project, create_project,
  change_project, update_project, soft_delete_project, updated, deleted,
}
use absolo_cloud_services.Projects.Rows.{
  attempted, attempted_state, change_project_rows, after_get_project,
}
use absolo_cloud_services.Projects.Isolation.{
  is_member, assert_membership-member, assert_membership-outsider,
}

module _ ⦃env : Env⦄ where
  none_more : (n m : ℕ) (a b : Bool) → m ≡ n + (if a && b then 1 else 0) → b ≡ false → m ≡ n
  none_more n m a b e h = ground (arith, e, h)

  -- A test that no row of the request passes has as many rows as before.
  pub count-create_project :
      (q : Project → Bool) (user : AuthenticatedUser) (org_id : String) (req : CreateProjectRequest)
      (s : State)
      → ((id : String) (at : ℕ) → q (project_row id org_id req at) ≡ false)
      → count q (in_table projects (create_project user org_id req s).1)
        ≡ count q (in_table projects s)
  unfolding create_project store_project attempted
  count-create_project q user org_id req s fails = elim (Bool-cases (is_member user s org_id)) [
    | inl member ↦ rw (assert_membership-member user s org_id (store_project org_id req) member) (
        ap (λ u. count q (in_table projects u))
          (attempted_state _ req.slug (record s { tick = s.tick + 1 + 1 }))
        ∙ none_more _ _ _ _ (count-insert projects q _ (record s { tick = s.tick + 1 + 1 }))
            (fails _ _))
    | inr outsider ↦
        rw (assert_membership-outsider user s org_id (store_project org_id req) outsider) refl
  ]

  -- What a step that follows on a project changes, where no step changes how many rows pass.
  count-changed :
      (q : Project → Bool) (f : ℕ → Project → Project) (id : String) (s : State)
      → ((at : ℕ) (r : Project) → q (f at r) ≡ q r)
      → count q (in_table projects (change_project f id s).1) ≡ count q (in_table projects s)
  count-changed q f id s same =
      ap (λ t. count q (env.rows t)) (change_project_rows f id s)
      ∙ count-update_keeps q (is_alive id) (f (env.clock s.tick)) s.projects
          (same (env.clock s.tick))

  pub count-update_project :
      (q : Project → Bool) (user : AuthenticatedUser) (id : String) (req : UpdateProjectRequest)
      (s : State)
      → ((at : ℕ) (r : Project) → q (updated req at r) ≡ q r)
      → count q (in_table projects (update_project user id req s).1) ≡ count q (in_table projects s)
  unfolding update_project
  count-update_project q user id req s same =
      after_get_project (λ u. count q (in_table projects u) ≡ count q (in_table projects s)) user id
        (λ existing. change_project (updated req) existing.id) s refl
        (λ row. count-changed q (updated req) row.id s same)

  pub count-soft_delete_project :
      (q : Project → Bool) (user : AuthenticatedUser) (id : String) (s : State)
      → ((at : ℕ) (r : Project) → q (deleted at r) ≡ q r)
      → count q (in_table projects (soft_delete_project user id s).1)
        ≡ count q (in_table projects s)
  unfolding soft_delete_project
  count-soft_delete_project q user id s same =
      after_get_project (λ u. count q (in_table projects u) ≡ count q (in_table projects s)) user id
        (λ existing. change_project deleted existing.id >> pure tt) s refl
        (λ row.
          ap (λ u. count q (in_table projects u))
            (>>-pure (change_project deleted row.id) (λ _. tt) s)
          ∙ count-changed q deleted row.id s same)
