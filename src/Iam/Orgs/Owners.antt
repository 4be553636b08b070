-- ===== src/Iam/Orgs/Owners.antt =====
-- Who owns a new organization.
use mathlib.Core.Path.{subst}
use absolo_cloud_services.Base.{
  ℕ, zero, suc, ◌+◌, ◌≤◌, String, ◌⧺◌, ◌≡◌, refl, sym, ap, ◌∙◌, inl, inr, Bool, true, false, ◌&&◌,
  Option, none, some, ◌==◌, eq_refl, count, if◌then◌else◌, arith,
}
use absolo_cloud_services.Result.{
  Result, ok, err, Error, not_found, conflict, unauthorized, forbidden, bad_request,
  unique_violation, foreign_key_violation, failure, Result-cases,
}
use absolo_cloud_services.Runtime.Env.{Env}
use absolo_cloud_services.Runtime.State.{State}
use absolo_cloud_services.Runtime.Action.{
  Action, pure, ◌>>=◌, ◌>>◌, catch, now, new_id, in_table, insert,
}
use absolo_cloud_services.Runtime.Laws.{
  insert_thrown, >>=-ok, >>=-err, catch-ok, catch-err, count-insert_done, insert_frame,
}
use absolo_cloud_services.Texts.{first_chars, drop_chars}
use absolo_cloud_services.Schema.Iam.{Membership, Organization}
use absolo_cloud_services.Runtime.Tables.Iam.{memberships, organizations}
use absolo_cloud_services.Iam.Slugify.Shape.{slugify_email_local_returns}
use absolo_cloud_services.Iam.Slugify.{slugify_email_local}
use absolo_cloud_services.Iam.Orgs.{
  new_org, owner_membership, store_org, slug_of_attempt, retry_on, allocate, create_personal_org,
  is_membership,
}

abbrev pub is_owner : String → String → Membership → Bool
is_owner user_id org_id r = is_membership user_id org_id r && r.role == "owner"

abbrev pub owned_by : String → Membership → Bool
owned_by user_id r = r.user_id == user_id && r.role == "owner"

abbrev pub same_org : Organization → Organization → Bool
same_org org r = r.id == org.id && r.slug == org.slug

module _ ⦃env : Env⦄ where
  -- What a call leaves: with an organization, its row and one more owner's membership; with an
  -- error, the memberships that were there. The accounts stay as they are.
  abbrev pub Founded : String → State → Result Organization × State → Type 0
  Founded user_id s (ok org, u) =
      (1 ≤ count (same_org org) (in_table organizations u))
      × (1 ≤ count (is_owner user_id org.id) (in_table memberships u))
      × (count (owned_by user_id) (in_table memberships u)
          ≡ count (owned_by user_id) (in_table memberships s) + 1)
      × (u.users ≡ s.users)
  Founded user_id s (err e, u) = (u.memberships ≡ s.memberships) × (u.users ≡ s.users)

  added : (n m : ℕ) (b : Bool) → m ≡ n + (if b then 1 else 0) → b ≡ true → 1 ≤ m
  added n m b e h = ground (arith, e, h)

  Founded-of_table :
      (user_id : String) (s w : State) (o : Result Organization × State)
      → w.memberships ≡ s.memberships
      → w.users ≡ s.users
      → Founded user_id w o
      → Founded user_id s o
  Founded-of_table user_id s w (ok org, u) m a (row, own, one, same) =
      (row, own, one ∙ ap (λ t. count (owned_by user_id) (env.rows t) + 1) m, same ∙ a)
  Founded-of_table user_id s w (err e, u) m a (kept, same) = (kept ∙ m, same ∙ a)

  Founded-of_eq :
      (user_id : String) (s : State) {o o' : Result Organization × State}
      → o ≡ o'
      → Founded user_id s o'
      → Founded user_id s o
  Founded-of_eq user_id s e h = rw e h

  owns :
      (user_id org_id : String) (at : ℕ)
      → is_owner user_id org_id (owner_membership user_id org_id at) ≡ true
  owns user_id org_id at = rw (eq_refl user_id, eq_refl org_id) refl

  counted :
      (user_id org_id : String) (at : ℕ)
      → owned_by user_id (owner_membership user_id org_id at) ≡ true
  counted user_id org_id at = rw (eq_refl user_id) refl

  join_owner : Organization → String → Action Organization
  join_owner org user_id = do
    joined_at ← now
    insert memberships (owner_membership user_id org.id joined_at)
    pure org

  join_owner-Founded :
      (org : Organization) (user_id : String) (s : State)
      → 1 ≤ count (same_org org) (in_table organizations s)
      → Founded user_id s (join_owner org user_id s)
  unfolding join_owner
  join_owner-Founded org user_id s there =
      let v : State = record s { tick = s.tick + 1 } in
      let m = owner_membership user_id org.id (env.clock s.tick) in
      let same : (insert memberships m v).1.users ≡ s.users =
        insert_frame memberships (λ u. u.users) m v (λ _ _. refl) in
      elim (Result-cases (insert memberships m v).0) [
        | inl (x, done) ↦
            Founded-of_eq user_id s (>>=-ok (insert memberships m) (λ _. pure org) v done) (
              subst (λ t. 1 ≤ count (same_org org) (env.rows t))
                  (sym (insert_frame memberships (λ u. u.organizations) m v (λ _ _. refl))) there,
              added _ _ _ (count-insert_done memberships (is_owner user_id org.id) m v done)
                  (owns user_id org.id (env.clock s.tick)),
              count-insert_done memberships (owned_by user_id) m v done
                  ∙ ap
                      (λ b.
                        count (owned_by user_id) (in_table memberships s) + (if b then 1 else 0))
                      (counted user_id org.id (env.clock s.tick)),
              same,
            )
        | inr (e, thrown) ↦
            Founded-of_eq user_id s (>>=-err (insert memberships m) (λ _. pure org) v thrown)
              (ap (λ u. u.memberships) (insert_thrown memberships m v thrown), same)
      ]

  store_org-Founded :
      (user_id org_id full_name slug : String) (s : State)
      → Founded user_id s (store_org user_id org_id full_name slug s)
  unfolding store_org join_owner
  store_org-Founded user_id org_id full_name slug s =
      let v : State = record s { tick = s.tick + 1 } in
      let org = new_org org_id slug full_name (env.clock s.tick) in
      let w = (insert organizations org v).1 in
      elim (Result-cases (insert organizations org v).0) [
        | inl (x, done) ↦
            Founded-of_eq user_id s
              (>>=-ok (insert organizations org) (λ _. join_owner org user_id) v done)
              (Founded-of_table user_id s w (join_owner org user_id w)
                (insert_frame organizations (λ u. u.memberships) org v (λ _ _. refl))
                (insert_frame organizations (λ u. u.users) org v (λ _ _. refl))
                (join_owner-Founded org user_id w (
                  added _ _ _ (count-insert_done organizations (same_org org) org v done)
                    (rw (eq_refl org_id, eq_refl slug) refl))))
        | inr (e, thrown) ↦
            Founded-of_eq user_id s
              (>>=-err (insert organizations org) (λ _. join_owner org user_id) v thrown)
              (
                insert_frame organizations (λ u. u.memberships) org v (λ _ _. refl),
                insert_frame organizations (λ u. u.users) org v (λ _ _. refl),
              )
      ]

  retry_on-Founded :
      (user_id : String) (s u : State) (e : Error) (again : Action Organization)
      → Founded user_id s (again u)
      → Founded user_id s (err e, u)
      → Founded user_id s (retry_on e again u)
  unfolding retry_on
  retry_on-Founded user_id s u (not_found _) again h k = k
  retry_on-Founded user_id s u (conflict _) again h k = k
  retry_on-Founded user_id s u (unauthorized _) again h k = k
  retry_on-Founded user_id s u (forbidden _) again h k = k
  retry_on-Founded user_id s u (bad_request _) again h k = k
  retry_on-Founded user_id s u (failure _) again h k = k
  retry_on-Founded user_id s u unique_violation again h k = h
  retry_on-Founded user_id s u foreign_key_violation again h k = k

  -- What the handler of an attempt makes of its outcome.
  caught-Founded :
      (user_id : String) (s u : State) (m : Action Organization) (h : Error → Action Organization)
      → Founded user_id s (m u)
      → ((e : Error) → Founded user_id s (err e, (m u).1) → Founded user_id s (h e (m u).1))
      → Founded user_id s (catch m h u)
  caught-Founded user_id s u m h done later = elim (Result-cases (m u).0) [
    | inl (org, e) ↦
        Founded-of_eq user_id s (catch-ok m h u e)
          (Founded-of_eq user_id s (λ i. (sym e i, (m u).1)) done)
    | inr (e, thrown) ↦
        Founded-of_eq user_id s (catch-err m h u thrown)
          (later e (Founded-of_eq user_id s (λ i. (sym thrown i, (m u).1)) done))
  ]

  attempt-Founded :
      (user_id org_id full_name slug : String) (s w : State) (again : Error → Action Organization)
      → w.memberships ≡ s.memberships
      → w.users ≡ s.users
      → ((e : Error) (u : State) → Founded user_id u (again e u))
      → Founded user_id s
          (catch (store_org user_id org_id full_name slug) (λ e. retry_on e (again e)) w)
  attempt-Founded user_id org_id full_name slug s w again m a later =
      Founded-of_table user_id s w _ m a (
        caught-Founded user_id w w (store_org user_id org_id full_name slug)
          (λ e. retry_on e (again e)) (store_org-Founded user_id org_id full_name slug w)
          (λ e kept.
            let u = (store_org user_id org_id full_name slug w).1 in
            retry_on-Founded user_id w u e (again e)
              (Founded-of_table user_id w u _ kept.0 kept.1 (later e u)) kept))

  allocate-Founded :
      (left : ℕ) (is_first : Bool) (last : Option Error) (user_id org_id full_name base : String)
      (s : State)
      → Founded user_id s (allocate left is_first last user_id org_id full_name base s)
  unfolding allocate slug_of_attempt
  allocate-Founded zero is_first last user_id org_id full_name base s = (refl, refl)
  allocate-Founded (suc left) true last user_id org_id full_name base s =
      attempt-Founded user_id org_id full_name base s s
        (λ e. allocate left false (some e) user_id org_id full_name base) refl refl
        (λ e u. allocate-Founded left false (some e) user_id org_id full_name base u)
  allocate-Founded (suc left) false last user_id org_id full_name base s =
      attempt-Founded user_id org_id full_name
        (base ⧺ "-" ⧺ first_chars 6 (drop_chars 2 (env.random_base36 s.tick))) s
        (record s { tick = s.tick + 1 })
        (λ e. allocate left false (some e) user_id org_id full_name base) refl refl
        (λ e u. allocate-Founded left false (some e) user_id org_id full_name base u)

  -- A personal organization that is returned has its row and the user as an owner, with exactly one
  -- more membership of the user as an owner than before; a call that throws leaves the memberships
  -- as they were. No user changes in either case.
  pub create_personal_org-Founded :
      (user_id email full_name : String) (s : State)
      → Founded user_id s (create_personal_org user_id email full_name s)
  unfolding create_personal_org
  create_personal_org-Founded user_id email full_name s =
      let (slug, n, e) = slugify_email_local_returns email s in
      let org_id = "org" ⧺ "_" ⧺ env.ulid n in
      Founded-of_eq user_id s
        (>>=-ok (slugify_email_local email)
            (λ base. new_id "org" >>= λ id. allocate 5 true none user_id id full_name base) s
            (ap (λ o. o.0) e)
          ∙ ap (λ u. (new_id "org" >>= λ id. allocate 5 true none user_id id full_name slug) u)
              (ap (λ o. o.1) e))
        (Founded-of_table user_id s (record s { tick = n + 1 })
          (allocate 5 true none user_id org_id full_name slug (record s { tick = n + 1 })) refl refl
          (allocate-Founded 5 true none user_id org_id full_name slug (record s { tick = n + 1 })))
