-- ===== src/Controllers/Auth/SignIn.antt =====
-- A sign-up and a sign-in through the controller.
use absolo_cloud_services.Base.{
  ◌≤◌, String, ◌≡◌, refl, sym, ap, inl, inr, Bool, true, false, Option, none, some, leb, List, [],
  ◌∷◌, count, Option-cases,
}
use absolo_cloud_services.Result.{Result, ok, err}
use absolo_cloud_services.Runtime.Env.{Env}
use absolo_cloud_services.Runtime.State.{State}
use absolo_cloud_services.Runtime.Action.{in_table}
use mathlib.Core.Path.{subst}
use absolo_cloud_services.Texts.{text_length}
use absolo_cloud_services.Errors.{Issue}
use absolo_cloud_services.Schema.Iam.{User}
use absolo_cloud_services.Runtime.Tables.Iam.{memberships}
use absolo_cloud_services.Iam.Auth.{SignedIn, signup, start_session}
use absolo_cloud_services.Iam.Auth.SignUp.{login-signup}
use absolo_cloud_services.Iam.Orgs.Owners.{owned_by}
use absolo_cloud_services.Contracts.JsonValues.{Value, str, obj, Fields, field, end, lookup}
use absolo_cloud_services.Contracts.Envelopes as Envelopes
use absolo_cloud_services.Contracts.Envelopes.{required_text}
use absolo_cloud_services.Contracts.Requests.{
  SignupRequest, read_signup, signup_request, login_request, to_email, passing, is_password,
  has_length, flag_or,
}
use absolo_cloud_services.Contracts.Requests.Steps.{made_of_five, passing-some, strict-fields}
use absolo_cloud_services.Controllers.Pipes.{sent, reply_of, handled, with_request}
use absolo_cloud_services.Controllers.Auth.Handlers.{handle_sign_up, handle_sign_in}

-- `{ email, password }`
abbrev pub credentials : String → String → Value
credentials email password = obj (field "email" (str email) (field "password" (str password) end))

module _ (is_email : String → Bool) where
  -- What the schema makes of an address and a password.
  abbrev MadeFrom : String → String → SignupRequest → Type 0
  MadeFrom email password r =
      (to_email is_email email ≡ some r.email) × (passing is_password password ≡ some r.password)

  read_signup-some :
      (fs : Fields) (email password : String) {req : SignupRequest}
      → lookup "email" fs ≡ some (str email)
      → lookup "password" fs ≡ some (str password)
      → read_signup is_email fs ≡ some req
      → MadeFrom email password req
  unfolding read_signup
  read_signup-some fs email password {req} has_email has_password e =
      made_of_five (MadeFrom email password)
        (Envelopes.◌>>=◌ (required_text (lookup "email" fs)) (to_email is_email))
        (Envelopes.◌>>=◌ (required_text (lookup "password" fs)) (passing is_password))
        (Envelopes.◌>>=◌ (required_text (lookup "fullName" fs)) (passing (has_length 1 120)))
        (flag_or false (lookup "marketingOptIn" fs))
        (Envelopes.◌>>=◌ (required_text (lookup "captchaToken" fs))
          (passing (λ s. leb 1 (text_length s))))
        (λ email password full_name marketing_opt_in captcha_token. record {
          email = email;
          password = password;
          full_name = full_name;
          marketing_opt_in = marketing_opt_in;
          captcha_token = captcha_token;
        })
        {r = req}
        (λ v w _ _ _ read_email read_password.
          (rw has_email at read_email, rw has_password at read_password))
        e

  login_request-credentials :
      (email password : String) (req : SignupRequest)
      → MadeFrom email password req
      → login_request is_email (credentials email password)
        ≡ some (record { email = req.email; password = req.password; mfa_code = none })
  unfolding login_request
  login_request-credentials email password req (same_email, same_password) =
      rw (same_email, same_password) refl

module _ ⦃env : Env⦄ (is_email : String → Bool) (issues : Value → List Issue) where
  reply_of-sent : {A : Type 0} (r : Result A) {a : A} → reply_of r ≡ sent a → r ≡ ok a
  unfolding reply_of
  reply_of-sent (ok b) e = cc e
  reply_of-sent (err _) e = absurd (cc e)

  sign_up_accepted :
      (body : Value) (ua ip : Option String) (s : State) {x : SignedIn}
      → (handle_sign_up is_email issues body ua ip s).0 ≡ sent x
      → (req : SignupRequest) × (signup_request is_email body ≡ some req)
        × ((signup req.captcha_token req.email req.full_name req.password ua ip s).0 ≡ ok x)
        × ((handle_sign_up is_email issues body ua ip s).1
            ≡ (signup req.captcha_token req.email req.full_name req.password ua ip s).1)
  unfolding handle_sign_up with_request
  sign_up_accepted body ua ip s {x} e = elim (Option-cases (signup_request is_email body)) [
    | inl refused ↦ absurd (cc (rw refused at e))
    | inr (req, accepted) ↦ (
      req,
      accepted,
      reply_of-sent (signup req.captcha_token req.email req.full_name req.password ua ip s).0
          {a = x} (rw accepted at e),
      rw accepted refl,
    )
  ]

  -- After a sign-up that the controller answered, where the hash that argon2 made verifies the
  -- password: the account owns an organization, and a request to sign in with the same address and
  -- password is accepted and goes on to start a session for a user with the account's id.
  pub handle_sign_in-handle_sign_up :
      (fs : Fields) (email password : String) (ua ip ua' ip' : Option String) (s : State)
      {x : SignedIn}
      → env.argon2_verify (env.argon2_hash s.tick password) password ≡ true
      → lookup "email" fs ≡ some (str email)
      → lookup "password" fs ≡ some (str password)
      → (handle_sign_up is_email issues (obj fs) ua ip s).0 ≡ sent x
      → let u = (handle_sign_up is_email issues (obj fs) ua ip s).1 in
        (1 ≤ count (owned_by x.user.id) (in_table memberships u))
        × ((row : User) × (row.id ≡ x.user.id)
            × (handle_sign_in is_email issues (credentials email password) ua' ip' u
                ≡ handled (start_session row ua' ip') u))
  unfolding handle_sign_in with_request signup_request
  handle_sign_in-handle_sign_up fs email password ua ip ua' ip' s {x} right has_email has_password
        e =
      let (req, accepted, done, next_state) = sign_up_accepted (obj fs) ua ip s {x = x} e in
      let made = read_signup-some is_email fs email password {req = req} has_email has_password (
        strict-fields ("email" ∷ "password" ∷ "fullName" ∷ "marketingOptIn" ∷ "captchaToken" ∷ [])
          (read_signup is_email) fs {a = req} accepted) in
      let (same_password, _) = passing-some is_password password {t = req.password} made.1 in
      let u = (signup req.captcha_token req.email req.full_name req.password ua ip s).1 in
      let (owner, (row, row_id, logged)) =
        login-signup req.captcha_token req.email req.full_name req.password ua ip ua' ip' s {x = x}
          (subst (λ p. env.argon2_verify (env.argon2_hash s.tick p) p ≡ true) same_password right)
          done in
      subst
        (λ v.
          (1 ≤ count (owned_by x.user.id) (in_table memberships v))
          × ((row : User) × (row.id ≡ x.user.id)
              × (handle_sign_in is_email issues (credentials email password) ua' ip' v
                  ≡ handled (start_session row ua' ip') v)))
        (sym next_state)
        (
          owner,
          (
            row,
            row_id,
            rw (login_request-credentials is_email email password req made)
                (ap (λ o. (reply_of o.0, o.1)) logged),
          ),
        )
