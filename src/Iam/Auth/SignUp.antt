-- ===== src/Iam/Auth/SignUp.antt =====
-- What an account can do after its sign-up.
use mathlib.Core.Path.{subst}
use absolo_cloud_services.Base.{
  ℕ, ◌+◌, ◌≤◌, String, ◌⧺◌, ◌≡◌, refl, sym, ap, ◌∙◌, inl, inr, true, ◌&&◌, Bool-cases, Option,
  is_some, ◌==◌, eq_iff, leb, count, head?-filter_seen, head?-filter_only, and_left, and_right,
  arith,
}
use absolo_cloud_services.Result.{Result, ok, err}
use absolo_cloud_services.Runtime.Env.{Env}
use absolo_cloud_services.Runtime.State.{State}
use absolo_cloud_services.Runtime.Action.{pure, ◌>>=◌, ◌>>◌, in_table, insert}
use absolo_cloud_services.Runtime.Laws.{>>=-eq-ok, >>-pure, insert_frame}
use absolo_cloud_services.Schema.Iam.{User, Organization, Session}
use absolo_cloud_services.Runtime.Tables.Iam.{users, memberships, sessions}
use absolo_cloud_services.Iam.Users.{create_user}
use absolo_cloud_services.Iam.Users.Accounts.{Opened, has_email, unlocked, create_user-ok}
use absolo_cloud_services.Iam.Orgs.{create_personal_org}
use absolo_cloud_services.Iam.Orgs.Owners.{Founded, owned_by, create_personal_org-Founded}
use absolo_cloud_services.Iam.Sessions.{issue, new_session, hmac, IssuedSession}
use absolo_cloud_services.Iam.Auth.{
  text_length, SignedIn, kept_user_agent, to_session_payload, start_session, signup, login,
  log_in_as, log_in_found,
}

module _ ⦃env : Env⦄ where
  module _ {A : Type 0} (f : State → A) where
    -- A new session touches the sessions alone.
    start_session_frame :
        (user : User) (ua ip : Option String) (s : State)
        → ((v : env.Table Session) (u : State) → f (record u { sessions = v }) ≡ f u)
        → ((n : ℕ) (u : State) → f (record u { tick = n }) ≡ f u)
        → f (start_session user ua ip s).1 ≡ f s
    unfolding start_session issue
    start_session_frame user ua ip s h k =
        let v : State = record s { tick = s.tick + 1 + 1 + 1 } in
        let row =
          new_session ("ses" ⧺ "_" ⧺ env.ulid s.tick) user.id
            (hmac (env.random_bytes (s.tick + 1) 32 "base64url")) (kept_user_agent ua) ip
            (env.clock (s.tick + 1 + 1)) in
        let issued : IssuedSession = record {
          id = row.id;
          expires_at = row.expires_at;
          cookie_value = row.id ⧺ "." ⧺ env.random_bytes (s.tick + 1) 32 "base64url";
        } in
        ap f (
          >>-pure (issue user.id (kept_user_agent ua) ip) (λ i. to_session_payload user i) s
          ∙ >>-pure (insert sessions row) (λ _. issued) v)
        ∙ insert_frame sessions f row v h
        ∙ k _ s

  log_in_as_opened :
      (user : User) (password : String) (ua ip : Option String) (s : State)
      → unlocked password user ≡ true
      → log_in_as user password ua ip s ≡ start_session user ua ip s
  unfolding log_in_as
  log_in_as_opened user password ua ip s h = elim (Bool-cases (is_some user.locked_at)) [
    | inl locked ↦ cc (rw locked at h)
    | inr free ↦ elim (Bool-cases (env.argon2_verify user.password_hash password)) [
      | inr wrong ↦ cc (rw (free, wrong) at h)
      | inl right ↦ elim (Bool-cases user.mfa_enabled) [
        | inl mfa ↦ cc (rw (free, right, mfa) at h)
        | inr plain ↦ rw (free, right, plain) refl
      ]
    ]
  ]

  -- The account that an address finds, where it has one.
  login-Opened :
      (email password : String) (user : User) (ua ip : Option String) (s : State)
      → Opened email password user s
      → (row : User) × (row.id ≡ user.id)
        × (login email password ua ip s ≡ start_session row ua ip s)
  unfolding login log_in_found
  login-Opened email password user ua ip s (one, mine) =
      let (row, found) =
        head?-filter_seen (has_email email) (in_table users s) (omega (arith, one)) in
      let is_mine =
        head?-filter_only (has_email email) (λ r. r.id == user.id && unlocked password r)
          (in_table users s) {r = row} found (omega (arith, one)) mine in
      (
        row,
        (eq_iff row.id user.id).0 (and_left _ _ is_mine),
        ap (λ o. log_in_found o password ua ip s) found
            ∙ log_in_as_opened row password ua ip s
                (and_right (row.id == user.id) (unlocked password row) is_mine),
      )

  Founded-users :
      (user_id : String) (s : State) (o : Result Organization × State)
      → Founded user_id s o
      → o.1.users ≡ s.users
  Founded-users user_id s (ok org, u) h = h.3
  Founded-users user_id s (err e, u) h = h.1

  abbrev id_in : String → Result SignedIn → String
  id_in id (ok x) = x.user.id
  id_in id (err e) = id

  start_session-ok :
      (user : User) (ua ip : Option String) (s : State) {x : SignedIn}
      → (start_session user ua ip s).0 ≡ ok x
      → user.id ≡ x.user.id
  unfolding start_session
  start_session-ok user ua ip s done =
      let (_, _, returned, _) =
        >>=-eq-ok (issue user.id (kept_user_agent ua) ip) (λ i. pure (to_session_payload user i)) s
          done in
      ap (id_in user.id) returned

  Founded-owner :
      (user_id : String) (s : State) {org : Organization} (o : Result Organization × State)
      → o.0 ≡ ok org
      → Founded user_id s o
      → count (owned_by user_id) (in_table memberships o.1)
        ≡ count (owned_by user_id) (in_table memberships s) + 1
  Founded-owner user_id s (ok org, u) e h = h.2
  Founded-owner user_id s (err _, u) e h = cc

  -- What a sign-up that returns has done: the calls that returned, and the tables it leaves.
  signup-ok :
      (captcha email full_name password : String) (ua ip : Option String) (s : State) {x : SignedIn}
      → (signup captcha email full_name password ua ip s).0 ≡ ok x
      → (user : User) × (user.id ≡ x.user.id)
        × ((create_user email full_name password s).0 ≡ ok user)
        × ((signup captcha email full_name password ua ip s).1.users
            ≡ (create_user email full_name password s).1.users)
        × (count
              (owned_by user.id)
              (in_table memberships (signup captcha email full_name password ua ip s).1)
            ≡ count
                (owned_by user.id)
                (in_table memberships (create_user email full_name password s).1)
              + 1)
  unfolding signup
  signup-ok captcha email full_name password ua ip s {x} done =
      elim (Bool-cases (leb 1 (text_length captcha))) [
        | inr missing ↦ cc (rw missing at done)
        | inl solved ↦
            let later = λ (user : User).
              create_personal_org user.id user.email user.full_name >> start_session user ua ip in
            let (user, created, rest, state) =
              >>=-eq-ok (create_user email full_name password) later s (rw solved at done) in
            let w = (create_user email full_name password s).1 in
            let founded = create_personal_org-Founded user.id user.email user.full_name w in
            let found = create_personal_org user.id user.email user.full_name w in
            let (org, founds, started, last) =
              >>=-eq-ok (create_personal_org user.id user.email user.full_name)
                (λ _. start_session user ua ip) w rest in
            let opened : signup captcha email full_name password ua ip s
                ≡ (create_user email full_name password >>= later) s =
              rw solved in
            let whole = ap (λ o. o.1) opened ∙ state ∙ last in
            (
              user,
              start_session-ok user ua ip found.1 started,
              created,
              ap (λ u. u.users) whole
                  ∙ start_session_frame (λ u. u.users) user ua ip found.1 (λ _ _. refl)
                      (λ _ _. refl)
                  ∙ Founded-users user.id w found founded,
              ap (λ u. count (owned_by user.id) (in_table memberships u)) whole
                  ∙ ap (λ t. count (owned_by user.id) (env.rows t))
                      (start_session_frame (λ u. u.memberships) user ua ip found.1 (λ _ _. refl)
                        (λ _ _. refl))
                  ∙ Founded-owner user.id w found founds founded,
            )
      ]

  positive : (n m : ℕ) → m ≡ n + 1 → 1 ≤ m
  positive n m e = omega (arith, e)

  Opened-of_table :
      (email password : String) (user : User) (w u : State)
      → u.users ≡ w.users
      → Opened email password user w
      → Opened email password user u
  Opened-of_table email password user w u e (one, mine) = (
    ap (λ t. count (has_email email) (env.rows t)) e ∙ one,
    subst
        (λ t.
          1
          ≤ count (λ r. has_email email r && (r.id == user.id && unlocked password r)) (env.rows t))
        (sym e) mine,
  )

  -- After a sign-up that returns, where the hash that argon2 made verifies the password: the
  -- account owns an organization, and a log-in with the same address and password goes on to start
  -- a session for a user with the account's id.
  pub login-signup :
      (captcha email full_name password : String) (ua ip ua' ip' : Option String) (s : State)
      {x : SignedIn}
      → env.argon2_verify (env.argon2_hash s.tick password) password ≡ true
      → (signup captcha email full_name password ua ip s).0 ≡ ok x
      → (1
          ≤ count
              (owned_by x.user.id)
              (in_table memberships (signup captcha email full_name password ua ip s).1))
        × ((row : User) × (row.id ≡ x.user.id)
            × (login email password ua' ip' (signup captcha email full_name password ua ip s).1
                ≡ start_session row ua' ip' (signup captcha email full_name password ua ip s).1))
  login-signup captcha email full_name password ua ip ua' ip' s {x} right done =
      let u = (signup captcha email full_name password ua ip s).1 in
      let (user, same_id, created, same_users, owner) =
        signup-ok captcha email full_name password ua ip s {x = x} done in
      let opened : Opened email password user u =
        Opened-of_table email password user (create_user email full_name password s).1 u same_users
          (create_user-ok email full_name password s {user = user} right created) in
      let (row, row_id, logged) = login-Opened email password user ua' ip' u opened in
      (
        subst (λ i. 1 ≤ count (owned_by i) (in_table memberships u)) same_id (positive _ _ owner),
        (row, row_id ∙ same_id, logged),
      )
