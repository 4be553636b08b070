-- ===== src/Projects/Creation.antt =====
-- What `create` of services/control-plane/src/modules/projects/projects.service.ts stores and
-- answers.
use absolo_cloud_services.Base.{
  ◌+◌, ◌≤◌, String, ◌⧺◌, ◌≡◌, sym, ap, ◌∙◌, ◌⊎◌, inl, inr, Bool, true, false, ◌&&◌, ◌||◌,
  Bool-cases, none, or_default, ◌==◌, count, count_pos_of_head?, head?-filter-none, Option-cases,
  if◌then◌else◌,
}
use absolo_cloud_services.Result.{
  Result, ok, err, Error, conflict, unique_violation, foreign_key_violation,
}
use absolo_cloud_services.Runtime.Env.{Env}
use absolo_cloud_services.Runtime.State.{State}
use absolo_cloud_services.Runtime.Action.{pure, catch, Relation, in_table, clash, insert}
use absolo_cloud_services.Runtime.Laws.{>>=-ok, >>=-err, catch-ok, catch-err}
use mathlib.Core.Path.{subst}
use absolo_cloud_services.Result.{err, ok, conflict, foreign_key_violation, unique_violation, Error}
use absolo_cloud_services.Runtime.Env.{Env}
use absolo_cloud_services.Runtime.State.{State}
use absolo_cloud_services.Runtime.Action.{pure, Relation, catch, in_table, insert, clash}
use absolo_cloud_services.Runtime.Laws.{>>=-ok, >>=-err, catch-ok, catch-err}
use absolo_cloud_services.Schema.Projects.{Project}
use absolo_cloud_services.Runtime.Tables.Iam.{org_exists}
use absolo_cloud_services.Runtime.Tables.Projects.{projects}
use absolo_cloud_services.Iam.Auth.{AuthenticatedUser}
use absolo_cloud_services.Projects.{
  CreateProjectRequest, ProjectView, to_domain, project_row, no_access, refuse_slug, store_project,
  create_project,
}
use absolo_cloud_services.Projects.Rows.{attempted}
use absolo_cloud_services.Projects.Isolation.{
  is_member, assert_membership-member, assert_membership-outsider,
}

-- A project that holds the id, or the slug in the organization, of a view.
abbrev pub holds : ProjectView → Project → Bool
holds v r = v.id == r.id || (v.org_id == r.org_id && v.slug == r.slug)

-- The row of a project as it is seen, which is not deleted.
abbrev pub row_of : ProjectView → Project
row_of v = record {
  id = v.id;
  org_id = v.org_id;
  slug = v.slug;
  name = v.name;
  description = v.description;
  kind = v.kind;
  status = v.status;
  region = v.region;
  created_at = v.created_at;
  updated_at = v.updated_at;
  deleted_at = none;
}

module _ ⦃env : Env⦄ where
  -- The project that is asked for.
  abbrev pub requested : String → CreateProjectRequest → State → ProjectView
  requested org_id req s = record {
    id = "prj" ⧺ "_" ⧺ env.ulid s.tick;
    org_id = org_id;
    slug = req.slug;
    name = req.name;
    description = or_default req.description "";
    kind = req.kind;
    status = "active";
    region = or_default req.region "eu-central";
    created_at = env.clock (s.tick + 1);
    updated_at = env.clock (s.tick + 1);
  }

  insert-cases :
      {Row : Type 0} (t : Relation Row) (r : Row) (s : State)
      → ((1 ≤ count (t.clashes r) (in_table t s)) × (insert t r s ≡ (err unique_violation, s)))
        ⊎ ((count (t.clashes r) (in_table t s) ≡ 0)
            × (((t.refers s r ≡ false) × (insert t r s ≡ (err foreign_key_violation, s)))
                ⊎ ((t.refers s r ≡ true)
                    × (insert t r s ≡ (ok tt, t.write (env.insert_into r (t.read s)) s)))))
  unfolding insert
  insert-cases t r s = elim (Option-cases (clash t r s)) [
    | inr (_, taken) ↦
        inl (count_pos_of_head? (t.clashes r) (in_table t s) taken, rw (taken, insert))
    | inl free ↦ inr (
      head?-filter-none (t.clashes r) (in_table t s) free,
      elim (Bool-cases (t.refers s r)) [
        | inl known ↦ inr (known, rw (free, insert, known))
        | inr unknown ↦ inl (unknown, rw (free, insert, unknown))
      ],
    )
  ]

  module _ (row : Project) (slug : String) (s : State) where
    attempted-ok :
        (u : State)
        → insert projects row s ≡ (ok tt, u)
        → catch (attempted row) (refuse_slug slug) s ≡ (ok (to_domain row), u)
    unfolding attempted
    attempted-ok u e =
        let step =
          >>=-ok (insert projects row) (λ _. pure (to_domain row)) s (ap (λ o. o.0) e)
          ∙ ap (λ o. (ok (to_domain row), o.1)) e in
        catch-ok (attempted row) (refuse_slug slug) s (ap (λ o. o.0) step)
        ∙ ap (λ o. (ok (to_domain row), o.1)) step

    attempted-err :
        (e : Error)
        → insert projects row s ≡ (err e, s)
        → catch (attempted row) (refuse_slug slug) s ≡ refuse_slug slug e s
    unfolding attempted
    attempted-err e thrown =
        let step =
          >>=-err (insert projects row) (λ _. pure (to_domain row)) s (ap (λ o. o.0) thrown)
          ∙ ap (λ o. (err e, o.1)) thrown in
        catch-err (attempted row) (refuse_slug slug) s (ap (λ o. o.0) step)
        ∙ ap (λ o. refuse_slug slug e o.1) step

  -- What a member of the organization gets and leaves.
  abbrev pub Stored : String → CreateProjectRequest → State → Result ProjectView × State → Type 0
  Stored org_id req s o =
      let view = requested org_id req s in
      ((1 ≤ count (holds view) (in_table projects s))
        × (o.0
            ≡ err (
                conflict
                  ("A project with slug \"" ⧺ req.slug ⧺ "\" already exists in this organisation")))
        × (o.1.projects ≡ s.projects))
      ⊎ ((count (holds view) (in_table projects s) ≡ 0)
          × (((org_exists s org_id ≡ false)
                × (o.0 ≡ err foreign_key_violation)
                × (o.1.projects ≡ s.projects))
              ⊎ ((org_exists s org_id ≡ true)
                  × (o.0 ≡ ok view)
                  × ((q : Project → Bool)
                      → count q (in_table projects o.1)
                        ≡ count q (in_table projects s) + (if q (row_of view) then 1 else 0)))))

  store_project-Stored :
      (org_id : String) (req : CreateProjectRequest) (s : State)
      → Stored org_id req s (store_project org_id req s)
  unfolding store_project attempted refuse_slug
  store_project-Stored org_id req s =
      let row = project_row ("prj" ⧺ "_" ⧺ env.ulid s.tick) org_id req (env.clock (s.tick + 1)) in
      let u : State = record s { tick = s.tick + 1 + 1 } in
      elim (insert-cases projects row u) [
        | inl (taken, thrown) ↦
            let e = attempted-err row req.slug u unique_violation thrown in
            inl (taken, ap (λ o. o.0) e, ap (λ o. o.1.projects) e)
        | inr (free, inl (unknown, thrown)) ↦
            let e = attempted-err row req.slug u foreign_key_violation thrown in
            inr (free, inl (unknown, ap (λ o. o.0) e, ap (λ o. o.1.projects) e))
        | inr (free, inr (known, done)) ↦
            let e =
              attempted-ok row req.slug u (record u { projects = env.insert_into row u.projects })
                done in
            inr (
              free,
              inr (
                known,
                ap (λ o. o.0) e,
                λ q.
                    ap (λ o. count q (in_table projects o.1)) e
                    ∙ env.count-insert_into q row u.projects,
              ),
            )
      ]

  -- Who is no member of the organization creates no project, and changes nothing. A member gets a
  -- conflict where the slug is taken in the organization (or the new id in the table), an error of
  -- the database where the organization is missing, and no project is stored; otherwise the
  -- project that was asked for is returned, and one row is added that holds what was returned.
  pub create_project_stores :
      (user : AuthenticatedUser) (org_id : String) (req : CreateProjectRequest) (s : State)
      → let o = create_project user org_id req s in
        ((is_member user s org_id ≡ false) × (o ≡ (err no_access, s)))
        ⊎ ((is_member user s org_id ≡ true) × Stored org_id req s o)
  unfolding create_project
  create_project_stores user org_id req s = elim (Bool-cases (is_member user s org_id)) [
    | inl member ↦ inr (
      member,
      subst (Stored org_id req s)
          (sym (assert_membership-member user s org_id (store_project org_id req) member))
          (store_project-Stored org_id req s),
    )
    | inr outsider ↦
        inl (outsider, assert_membership-outsider user s org_id (store_project org_id req) outsider)
  ]
