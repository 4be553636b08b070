-- ===== src/Iam/Auth/Access.antt =====
-- Who passes the guard and who may log in.
use absolo_cloud_services.Base.{
  ◌≤◌, String, ◌⧺◌, ◌≡◌, refl, sym, ap, ◌∙◌, ◌⊎◌, inl, inr, Bool, true, false, ◌&&◌, not,
  Bool-cases, Option, none, some, is_some, ◌==◌, head?, filter, count, head?-filter-count,
  Option-cases,
}
use absolo_cloud_services.Result.{Result, ok, err, not_found}
use absolo_cloud_services.Runtime.Env.{Env}
use absolo_cloud_services.Runtime.State.{State}
use absolo_cloud_services.Runtime.Action.{Action, pure, ◌>>=◌, or_throw, catch, in_table}
use absolo_cloud_services.Runtime.Laws.{>>=-ok, >>=-err}
use absolo_cloud_services.Schema.Iam.{User}
use absolo_cloud_services.Runtime.Tables.Iam.{users}
use absolo_cloud_services.Iam.Users.{normalise}
use absolo_cloud_services.Iam.Sessions.{ResolvedSession, resolve}
use absolo_cloud_services.Iam.Sessions.Lifecycle.{resolve-ok}
use absolo_cloud_services.Iam.Auth.{
  SignedIn, session_user, AuthenticatedUser, unauthenticated, hydrate, can_activate, log_in_as,
  log_in_found, login,
}

module _ ⦃env : Env⦄ where
  -- An account that a password opens: not locked, with the password's hash, without a second
  -- factor.
  abbrev pub opens : String → String → User → Bool
  opens email password r =
      r.email == normalise email
      && (not (is_some r.locked_at)
          && (env.argon2_verify r.password_hash password && not r.mfa_enabled))

  log_in_as-ok :
      (user : User) (password : String) (ua ip : Option String) (s : State) {i : SignedIn}
      → (log_in_as user password ua ip s).0 ≡ ok i
      → (not (is_some user.locked_at)
          && (env.argon2_verify user.password_hash password && not user.mfa_enabled))
        ≡ true
  unfolding log_in_as
  log_in_as-ok user password ua ip s e = elim (Bool-cases (is_some user.locked_at)) [
    | inl locked ↦ cc (rw locked at e)
    | inr unlocked ↦ elim (Bool-cases (env.argon2_verify user.password_hash password)) [
      | inr wrong ↦ cc (rw (unlocked, wrong) at e)
      | inl right ↦ elim (Bool-cases user.mfa_enabled) [
        | inl mfa ↦ cc (rw (unlocked, right, mfa) at e)
        | inr plain ↦ rw (unlocked, right, plain) refl
      ]
    ]
  ]

  -- A log-in returns a session only for an account that the password opens.
  pub login_sound :
      (email password : String) (ua ip : Option String) (s : State) {i : SignedIn}
      → (login email password ua ip s).0 ≡ ok i
      → 1 ≤ count (opens email password) (in_table users s)
  unfolding login log_in_found
  login_sound email password ua ip s {i} e =
      elim (Option-cases (head? (filter (λ r. r.email == normalise email) (in_table users s)))) [
        | inl unknown ↦ cc (sym (ap (λ o. (log_in_found o password ua ip s).0) unknown) ∙ e)
        | inr (user, known) ↦
            head?-filter-count (λ r. r.email == normalise email)
              (λ r.
                not (is_some r.locked_at)
                && (env.argon2_verify r.password_hash password && not r.mfa_enabled))
              (in_table users s) {r = user} known
              (log_in_as-ok user password ua ip s {i = i}
                (sym (ap (λ o. (log_in_found o password ua ip s).0) known) ∙ e))
      ]

  hydrate_with : ResolvedSession → Option User → Action AuthenticatedUser
  hydrate_with r o =
      catch (or_throw (not_found ("User " ⧺ r.user_id ⧺ " not found")) o >>= λ row. pure (some row))
        (λ _. pure none)
      >>= (λ row. or_throw unauthenticated row)
      >>= (λ row. pure (session_user row r))

  abbrev Guarded : {A : Type 0} → Result A → Type 0
  Guarded {A} r = ((a : A) × (r ≡ ok a)) ⊎ (r ≡ err unauthenticated)

  hydrate-cases : (o : Option ResolvedSession) (s : State) → Guarded (hydrate o s).0
  unfolding hydrate hydrate_with
  hydrate-cases none s = inr refl
  hydrate-cases (some r) s =
      elim (Option-cases (head? (filter (λ u. u.id == r.user_id) (in_table users s)))) [
        | inl e ↦ inr (ap (λ o. (hydrate_with r o s).0) e)
        | inr (u, e) ↦ inl (session_user u r, ap (λ o. (hydrate_with r o s).0) e)
      ]

  -- In front of a route that is not public the guard lets a user pass or answers that
  -- authentication is required; no other error leaves it.
  pub can_activate_private :
      (cookie : Option String) (s : State)
      → ((user : AuthenticatedUser) × ((can_activate false cookie s).0 ≡ ok (some user)))
        ⊎ ((can_activate false cookie s).0 ≡ err unauthenticated)
  unfolding can_activate
  can_activate_private cookie s =
      let (r, e) = resolve-ok cookie s in
      let step = >>=-ok (resolve cookie) hydrate s e in
      elim (hydrate-cases r (resolve cookie s).1) [
        | inl (user, done) ↦ inl (
          user,
          ap (λ o. o.0)
              (>>=-ok (resolve cookie >>= hydrate) (λ u. pure (some u)) s
                (ap (λ o. o.0) step ∙ done)),
        )
        | inr thrown ↦ inr (
            ap (λ o. o.0)
              (>>=-err (resolve cookie >>= hydrate) (λ u. pure (some u)) s
                (ap (λ o. o.0) step ∙ thrown)))
      ]
