-- ===== src/Projects/Changes.antt =====
-- What `update` and `softDelete` of services/control-plane/src/modules/projects/projects.service.ts
-- change, and what is found afterwards.
use absolo_cloud_services.Base.{
  ℕ, ◌+◌, ◌≤◌, String, ◌≡◌, ap, ◌∙◌, Bool, some, or_default, ◌==◌, List, [], ◌∷◌, map, head?,
  filter, count, if◌then◌else◌,
}
use absolo_cloud_services.Result.{ok, err}
use absolo_cloud_services.Runtime.Env.{Env}
use absolo_cloud_services.Runtime.State.{State}
use absolo_cloud_services.Runtime.Action.{Action, pure, ◌>>=◌, ◌>>◌, in_table}
use absolo_cloud_services.Runtime.Laws.{
  >>=-ok, or_throw-none, or_throw-some, count-update, count-update_none,
}
use absolo_cloud_services.Result.{err, ok}
use absolo_cloud_services.Runtime.Env.{Env}
use absolo_cloud_services.Runtime.State.{State}
use absolo_cloud_services.Runtime.Action.{Action, pure, ◌>>=◌, ◌>>◌, in_table}
use absolo_cloud_services.Runtime.Laws.{
  >>=-ok, or_throw-none, or_throw-some, count-update, count-update_none,
}
use absolo_cloud_services.Schema.Projects.{Project}
use absolo_cloud_services.Runtime.Tables.Projects.{projects}
use absolo_cloud_services.Iam.Auth.{AuthenticatedUser}
use absolo_cloud_services.Projects.{
  UpdateProjectRequest, is_alive, to_domain, project_not_found, get_project, change_project,
  updated, update_project,
}
use absolo_cloud_services.Projects.Isolation.{is_visible, get_project_row}

head?-map :
    {A B : Type 0} (f : A → B) (l : List A) {a : A}
    → head? l ≡ some a
    → head? (map f l) ≡ some (f a)
head?-map f [] e = cc
head?-map f (x ∷ l) {a} e = ap (λ o. some (f (or_default o x))) e

module _ ⦃env : Env⦄ where
  -- The rows that are not deleted are changed, and the first is returned.
  change_project_lem :
      (f : ℕ → Project → Project) (id : String) (s : State) {row : Project}
      → head? (filter (is_alive id) (in_table projects s)) ≡ some row
      → change_project f id s ≡ (
        ok (to_domain (f (env.clock s.tick) row)),
        record s {
          tick = s.tick + 1;
          projects = env.update_where (is_alive id) (f (env.clock s.tick)) s.projects;
        },
      )
  unfolding change_project
  change_project_lem f id s {row} found =
      or_throw-some (project_not_found id)
        (head? (map (f (env.clock s.tick)) (filter (is_alive id) (in_table projects s))))
        (λ r. pure (to_domain r))
        (record s {
          tick = s.tick + 1;
          projects = env.update_where (is_alive id) (f (env.clock s.tick)) s.projects;
        })
        (head?-map (f (env.clock s.tick)) (filter (is_alive id) (in_table projects s)) found)

  -- A step that follows on the project that a user sees.
  after_found :
      {A : Type 0} (user : AuthenticatedUser) (s : State) (id : String) (k : String → Action A)
      (row : Project)
      → get_project user id s ≡ (ok (to_domain row), s)
      → row.id ≡ id
      → (get_project user id >>= λ existing. k existing.id) s ≡ k id s
  after_found user s id k row there same =
      >>=-ok (get_project user id) (λ existing. k existing.id) s (ap (λ o. o.0) there)
      ∙ ap (λ o. k row.id o.1) there
      ∙ ap (λ i. k i s) same

  module _ (user : AuthenticatedUser) (s : State) (id : String) where
    -- To change the project that a user sees sets the name, the description and the status that
    -- are given, and the time, in the row of the project and in no other, and returns the project
    -- as it is after that.
    pub update_project_changes :
        (req : UpdateProjectRequest)
        → count (λ r. r.id == id) (in_table projects s) ≤ 1
        → 1 ≤ count (is_visible user s id) (in_table projects s)
        → let (r, s') = update_project user id req s in
          (row : Project) × (head? (filter (is_visible user s id) (in_table projects s)) ≡ some row)
          × (r
              ≡ ok (record {
                id = id;
                org_id = row.org_id;
                slug = row.slug;
                name = or_default req.name row.name;
                description = or_default req.description row.description;
                kind = row.kind;
                status = or_default req.status row.status;
                region = row.region;
                created_at = row.created_at;
                updated_at = env.clock s.tick;
              }))
          × ((q : Project → Bool)
              → count q (in_table projects s')
                ≡ count
                    (λ r. q (
                      if is_alive id r
                      then record r {
                        name = or_default req.name r.name;
                        description = or_default req.description r.description;
                        status = or_default req.status r.status;
                        updated_at = env.clock s.tick;
                      }
                      else r))
                    (in_table projects s))
    unfolding update_project
    update_project_changes req keyed seen =
        let (row, there, alive, visible, same) = get_project_row user s id keyed seen in
        let e =
          after_found user s id (change_project (updated req)) row there same
          ∙ change_project_lem (updated req) id s {row = row} alive in
        (
          row,
          visible,
          ap (λ o. o.0) e
              ∙ ap (λ i. ok (to_domain (record (updated req (env.clock s.tick) row) { id = i })))
                  same,
          λ q.
              ap (λ o. count q (in_table projects o.1)) e
              ∙ count-update projects q (is_alive id) (updated req (env.clock s.tick)) s,
        )
