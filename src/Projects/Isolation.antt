-- ===== src/Projects/Isolation.antt =====
-- Who may see and change a project.
use absolo_cloud_services.Base.{
  head?-filter-some, List, [], ◌∷◌, eq_iff, head?-filter_only, and_left, count_mono,
  head?-filter_seen, ◌≤◌, ◌==◌, ap, String, ◌≡◌, refl, ◌∙◌, ◌⊎◌, inl, inr, Bool, true, false, ◌&&◌,
  Bool-cases, some, head?, filter, count, head?-filter-count, Option-cases, arith,
}
use absolo_cloud_services.Result.{ok, err, Error}
use absolo_cloud_services.Runtime.Env.{Env}
use absolo_cloud_services.Runtime.State.{State}
use absolo_cloud_services.Runtime.Action.{◌>>◌, ◌>>=◌, or_throw, in_table}
use absolo_cloud_services.Runtime.Laws.{>>=-err, or_throw-none, or_throw-some}
use absolo_cloud_services.Schema.Projects.{Project}
use absolo_cloud_services.Runtime.Tables.Checks.{found}
use absolo_cloud_services.Runtime.Tables.Iam.{memberships}
use absolo_cloud_services.Runtime.Tables.Projects.{projects}
use absolo_cloud_services.Iam.Auth.{AuthenticatedUser}
use absolo_cloud_services.Iam.Orgs.{is_membership}
use absolo_cloud_services.Projects.{
  le_trans, deleted, updated, assert_membership, ProjectView, Action, pure, change_project,
  UpdateProjectRequest, to_domain, is_alive, project_not_found, no_access, shown, get_project,
  update_project, soft_delete_project,
}

-- The first row that passes a test, where it passes another too.
head?-filter-and :
    {A : Type 0} (p q : A → Bool) (l : List A) {r : A}
    → head? (filter p l) ≡ some r
    → q r ≡ true
    → head? (filter (λ a. p a && q a) l) ≡ some r
head?-filter-and p q [] e h = cc
head?-filter-and p q (x ∷ l) {r} e h = ground (arith, head?-filter-and p q l {r = r})

module _ ⦃env : Env⦄ where
  abbrev pub is_member : AuthenticatedUser → State → String → Bool
  is_member user s org_id = found (is_membership user.id org_id) (in_table memberships s)

  -- A project that is not deleted, in an organization of the user.
  abbrev pub is_visible : AuthenticatedUser → State → String → Project → Bool
  is_visible user s id r = is_alive id r && is_member user s r.org_id

  module _ (user : AuthenticatedUser) (s : State) where
    -- The guard in front of the rest of a method.
    pub assert_membership-member :
        {A : Type 0} (org_id : String) (k : Action A)
        → is_member user s org_id ≡ true
        → (assert_membership user org_id >> k) s ≡ k s
    assert_membership-member org_id k h =
        elim (Option-cases
          (head? (filter (is_membership user.id org_id) (in_table memberships s)))) [
            | inl e ↦ cc (rw e at h)
            | inr (m, e) ↦ ap (λ o. ((or_throw no_access o >>= λ _. pure tt) >> k) s) e
          ]

    pub assert_membership-outsider :
        {A : Type 0} (org_id : String) (k : Action A)
        → is_member user s org_id ≡ false
        → (assert_membership user org_id >> k) s ≡ (err no_access, s)
    assert_membership-outsider org_id k h =
        elim (Option-cases
          (head? (filter (is_membership user.id org_id) (in_table memberships s)))) [
            | inl e ↦ ap (λ o. ((or_throw no_access o >>= λ _. pure tt) >> k) s) e
            | inr (m, e) ↦ cc (rw e at h)
          ]

    shown_member :
        (row : Project)
        → is_member user s row.org_id ≡ true
        → shown user row s ≡ (ok (to_domain row), s)
    unfolding shown
    shown_member row h = assert_membership-member row.org_id (pure (to_domain row)) h

    shown_outsider :
        (row : Project)
        → is_member user s row.org_id ≡ false
        → shown user row s ≡ (err no_access, s)
    unfolding shown
    shown_outsider row h = assert_membership-outsider row.org_id (pure (to_domain row)) h

    pub get_project_lem :
        (id : String)
        → get_project user id s
          ≡ (or_throw (project_not_found id) (head? (filter (is_alive id) (in_table projects s)))
                >>= shown user)
              s
    unfolding get_project
    get_project_lem id = refl

    -- What a caller gets: the project, or an error, and no change.
    pub get_project-cases :
        (id : String)
        → ((row : Project) × (get_project user id s ≡ (ok (to_domain row), s))
            × (head? (filter (is_alive id) (in_table projects s)) ≡ some row)
            × (is_member user s row.org_id ≡ true))
          ⊎ ((e : Error) × (get_project user id s ≡ (err e, s)))
    get_project-cases id =
        elim (Option-cases (head? (filter (is_alive id) (in_table projects s)))) [
          | inl e ↦
              inr (project_not_found id, get_project_lem id ∙ or_throw-none _ _ (shown user) s e)
          | inr (row, e) ↦
              let there =
                get_project_lem id ∙ or_throw-some (project_not_found id) _ (shown user) s e in
              elim (Bool-cases (is_member user s row.org_id)) [
                | inl member ↦ inl (row, there ∙ shown_member row member, e, member)
                | inr outsider ↦ inr (no_access, there ∙ shown_outsider row outsider)
              ]
        ]

    stops :
        {A : Type 0} (id : String) (e : Error) (k : ProjectView → Action A)
        → get_project user id s ≡ (err e, s)
        → (get_project user id >>= k) s ≡ (err e, s)
    stops id e k refused =
        >>=-err (get_project user id) k s (ap (λ o. o.0) refused) ∙ ap (λ o. (err e, o.1)) refused

    -- Where the user sees no project with the id, to get, change or delete it throws the same
    -- error and changes nothing.
    pub project_isolation :
        (id : String) (req : UpdateProjectRequest)
        → count (is_visible user s id) (in_table projects s) ≡ 0
        → (e : Error) × (get_project user id s ≡ (err e, s))
          × (update_project user id req s ≡ (err e, s))
          × (soft_delete_project user id s ≡ (err e, s))
    unfolding update_project soft_delete_project
    project_isolation id req unseen = elim (get_project-cases id) [
      | inl (row, there, e, member) ↦ absurd (
          omega (
            arith,
            unseen,
            head?-filter-count (is_alive id) (λ r. is_member user s r.org_id) (in_table projects s)
                e member,
          ))
      | inr (e, refused) ↦ (
        e,
        refused,
        stops id e (λ existing. change_project (updated req) existing.id) refused,
        stops id e (λ existing. change_project deleted existing.id >> pure tt) refused,
      )
    ]

    -- The one row with an id, where the user sees it.
    pub get_project_row :
        (id : String)
        → count (λ r. r.id == id) (in_table projects s) ≤ 1
        → 1 ≤ count (is_visible user s id) (in_table projects s)
        → (row : Project) × (get_project user id s ≡ (ok (to_domain row), s))
          × (head? (filter (is_alive id) (in_table projects s)) ≡ some row)
          × (head? (filter (is_visible user s id) (in_table projects s)) ≡ some row)
          × (row.id ≡ id)
    get_project_row id keyed seen =
        let (row, e) = head?-filter_seen (is_alive id) (in_table projects s) (
          le_trans seen (
            count_mono (is_visible user s id) (is_alive id) (in_table projects s)
              (λ r h. and_left _ _ h))) in
        let member =
          head?-filter_only (is_alive id) (λ r. is_member user s r.org_id) (in_table projects s)
            {r = row} e
            (le_trans
              (count_mono (is_alive id) (λ r. r.id == id) (in_table projects s)
                (λ r h. and_left _ _ h))
              keyed)
            seen in
        (
          row,
          get_project_lem id
              ∙ or_throw-some (project_not_found id) _ (shown user) s e
              ∙ shown_member row member,
          e,
          head?-filter-and (is_alive id) (λ r. is_member user s r.org_id) (in_table projects s)
              {r = row} e member,
          (eq_iff row.id id).0
              (and_left _ _ (head?-filter-some (is_alive id) (in_table projects s) {r = row} e)),
        )

    -- A member of the organization of the one row with the id, which is not deleted, gets the id
    -- and what the row of the table holds, and nothing changes.
    pub get_project_found :
        (id : String)
        → count (λ r. r.id == id) (in_table projects s) ≤ 1
        → 1 ≤ count (is_visible user s id) (in_table projects s)
        → (row : Project) × (head? (filter (is_visible user s id) (in_table projects s)) ≡ some row)
          × (get_project user id s ≡ (
            ok (record {
              id = id;
              org_id = row.org_id;
              slug = row.slug;
              name = row.name;
              description = row.description;
              kind = row.kind;
              status = row.status;
              region = row.region;
              created_at = row.created_at;
              updated_at = row.updated_at;
            }),
            s,
          ))
    get_project_found id keyed seen =
        let (row, there, _, visible, same) = get_project_row id keyed seen in
        (row, visible, there ∙ ap (λ i. (ok (record (to_domain row) { id = i }), s)) same)
