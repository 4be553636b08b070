-- ===== src/Iam/Auth.antt =====
-- Sign up, log in and out, and the guard in front of every route that is not public:
-- services/control-plane/src/modules/iam/auth.service.ts and auth.guard.ts. What is read of a
-- request is an argument, and the cookie of a reply is part of the answer.
pub mod Access
pub mod SignUp
use absolo_cloud_services.Base.{
  List, [], leb, String, Bool, true, false, not, Option, none, some, is_some, ◌==◌, if◌then◌else◌,
}
use absolo_cloud_services.Result.{ok, err, Error, unauthorized}
use absolo_cloud_services.Runtime.Env.{Env}
use absolo_cloud_services.Runtime.Action.{Action, pure, ◌>>=◌, ◌>>◌, or_throw, catch}
use absolo_cloud_services.Schema.Iam.{User}
use mathlib.Core.Option
use absolo_cloud_services.Dates.{to_iso_string}
use absolo_cloud_services.Texts.{first_chars, text_length}
use absolo_cloud_services.Iam.Orgs.{create_personal_org}
use absolo_cloud_services.Iam.Users.{create_user, find_by_email, get_by_id}
use absolo_cloud_services.Iam.Sessions.{IssuedSession, ResolvedSession, issue, resolve, revoke}

-- types.ts
pub record AuthenticatedUser : Type 0 where
  pub id : String
  pub email : String
  pub full_name : String
  pub session_id : String

abbrev pub fake_hash : String
fake_hash =
    "$argon2id$v=19$m=19456,t=2,p=1$bQ4Em5OkjL7Px9TiJyv4uA$JgK3Gk8OqSVaBT2kE/rRQ5sSttx/KsxOM5b7Rx4N4kI"

abbrev pub session_user : User → ResolvedSession → AuthenticatedUser
session_user row resolved = record {
  id = row.id;
  email = row.email;
  full_name = row.full_name;
  session_id = resolved.session_id;
}

-- `Auth.User`
pub record UserView : Type 0 where
  pub id : String
  pub email : String
  pub full_name : String
  pub avatar_url : Option String
  pub mfa_enabled : Bool
  pub email_verified_at : Option String
  pub created_at : String
  pub updated_at : String

abbrev pub to_user : User → UserView
to_user row = record {
  id = row.id;
  email = row.email;
  full_name = row.full_name;
  avatar_url = row.avatar_url;
  mfa_enabled = row.mfa_enabled;
  email_verified_at = Option.map (λ at. to_iso_string at) row.email_verified_at;
  created_at = to_iso_string row.created_at;
  updated_at = to_iso_string row.updated_at;
}

-- `Auth.Session` with the cookie that the reply sets.
pub record SignedIn : Type 0 where
  pub user : UserView
  pub expires_at : String
  pub scopes : List String
  pub cookie_value : String

abbrev pub to_session_payload : User → IssuedSession → SignedIn
to_session_payload row issued = record {
  user = to_user row;
  expires_at = to_iso_string issued.expires_at;
  scopes = [];
  cookie_value = issued.cookie_value;
}

-- `connectionMeta`: the header as far as it is kept.
abbrev pub kept_user_agent : Option String → Option String
kept_user_agent user_agent = Option.map (λ ua. first_chars 512 ua) user_agent

module _ ⦃env : Env⦄ where
  -- The end of a sign-up and of a log-in.
  unfoldable pub start_session : User → Option String → Option String → Action SignedIn
  unfolding issue
  start_session user user_agent ip = do
    issued ← issue user.id (kept_user_agent user_agent) ip
    pure (to_session_payload user issued)

  unfoldable pub signup :
      String → String → String → String → Option String → Option String → Action SignedIn
  unfolding create_user create_personal_org start_session
  signup captcha_token email full_name password user_agent ip s =
      if leb 1 (text_length captcha_token)
      then (do
        user ← create_user email full_name password
        create_personal_org user.id user.email user.full_name
        start_session user user_agent ip)
          s
      else (err (unauthorized "Missing captcha token"), s)

  abbrev pub unauthenticated : Error
  unauthenticated = unauthorized "Authentication required"

  -- The user of a resolved session: a failed look-up counts as no user.
  unfoldable pub hydrate : Option ResolvedSession → Action AuthenticatedUser
  hydrate none s = (err unauthenticated, s)
  hydrate (some resolved) s =
      (catch (do row ← get_by_id resolved.user_id; pure (some row)) (λ _. pure none)
          >>= (λ row. or_throw unauthenticated row)
          >>= (λ row. pure (session_user row resolved)))
        s

  -- A public route has no user.
  unfoldable pub can_activate : Bool → Option String → Action (Option AuthenticatedUser)
  unfolding resolve hydrate
  can_activate true cookie s = (ok none, s)
  can_activate false cookie s = (resolve cookie >>= hydrate >>= (λ user. pure (some user))) s

  -- What stops an account whose password may be right.
  log_in_as : User → String → Option String → Option String → Action SignedIn
  unfolding start_session
  log_in_as user password user_agent ip s =
      if is_some user.locked_at
      then (err (unauthorized "Account locked"), s)
      else if not (env.argon2_verify user.password_hash password)
      then (err (unauthorized "Invalid email or password"), s)
      else if user.mfa_enabled
      then (err (unauthorized "MFA verification not yet implemented"), s)
      else start_session user user_agent ip s

  log_in_found : Option User → String → Option String → Option String → Action SignedIn
  unfolding log_in_as
  log_in_found none password user_agent ip s = (err (unauthorized "Invalid email or password"), s)
  log_in_found (some user) password user_agent ip s = log_in_as user password user_agent ip s

  unfoldable pub login : String → String → Option String → Option String → Action SignedIn
  unfolding log_in_found
  login email password user_agent ip = do
    user ← find_by_email email
    log_in_found user password user_agent ip

  pub logout : Option String → Action (Unit {0})
  unfolding revoke
  logout none s = (ok tt, s)
  logout (some session_id) s = if session_id == "" then (ok tt, s) else revoke session_id s
