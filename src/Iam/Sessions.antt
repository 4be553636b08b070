-- ===== src/Iam/Sessions.antt =====
-- Sessions: services/control-plane/src/modules/iam/sessions.service.ts and the lifetime in
-- cookie.ts. The cookie is a text; setting it on the reply is the framework's.
pub mod Lifecycle
pub mod RoundTrip
use absolo_cloud_services.Base.{
  ℕ, ◌+◌, ◌*◌, String, ◌⧺◌, Bool, ◌&&◌, ◌||◌, not, Option, none, some, is_some, ◌==◌, ltb,
  if◌then◌else◌,
}
use absolo_cloud_services.Result.{ok}
use absolo_cloud_services.Runtime.Env.{Env}
use absolo_cloud_services.Runtime.Action.{
  Action, pure, ◌>>=◌, ◌>>◌, next, now, new_id, select_first, insert, update,
}
use absolo_cloud_services.Texts.{split_at_dot}
use absolo_cloud_services.Schema.Iam.{Session}
use absolo_cloud_services.Runtime.Tables.Iam.{sessions}

abbrev pub session_ttl_seconds : ℕ
session_ttl_seconds = 60 * 60 * 24 * 30

pub record IssuedSession : Type 0 where
  pub id : String
  pub expires_at : ℕ
  pub cookie_value : String

pub record ResolvedSession : Type 0 where
  pub session_id : String
  pub user_id : String

abbrev pub new_session : String → String → String → Option String → Option String → ℕ → Session
new_session id user_id hash user_agent ip at = record {
  id = id;
  user_id = user_id;
  refresh_token_hash = hash;
  user_agent = user_agent;
  ip = ip;
  expires_at = at + session_ttl_seconds * 1000;
  revoked_at = none;
  last_seen_at = at;
  created_at = at;
}

-- `eq(id), isNull(revokedAt), gt(expiresAt, now)`
abbrev pub is_live : String → ℕ → Session → Bool
is_live id at r = r.id == id && not (is_some r.revoked_at) && ltb at r.expires_at

module _ ⦃env : Env⦄ where
  abbrev pub hmac : String → String
  hmac input = env.hmac_sha256_hex env.session_secret input

  unfoldable pub issue : String → Option String → Option String → Action IssuedSession
  issue user_id user_agent ip = do
    id ← new_id "ses"
    token ← next (λ n. env.random_bytes n 32 "base64url")
    at ← now
    insert sessions (new_session id user_id (hmac token) user_agent ip at)
    pure (record {
      id = id;
      expires_at = at + session_ttl_seconds * 1000;
      cookie_value = id ⧺ "." ⧺ token;
    })

  -- The hashes have the same bytes: the length test and `timingSafeEqual`.
  abbrev pub same_hash : Session → String → Bool
  same_hash row presented = env.from_hex row.refresh_token_hash == env.from_hex (hmac presented)

  touch : Session → String → Action (Option ResolvedSession)
  touch row session_id = do
    at ← now
    update sessions (λ r. r.id == session_id) (λ r. record r { last_seen_at = at })
    pure (some (record { session_id = row.id; user_id = row.user_id }))

  -- What the row that was found answers to the token that was presented.
  pub compare_hash : Option Session → String → String → Action (Option ResolvedSession)
  unfolding touch
  compare_hash none session_id presented s = (ok none, s)
  compare_hash (some row) session_id presented s =
      if not (same_hash row presented) then (ok none, s) else touch row session_id s

  look_up : String → String → Action (Option ResolvedSession)
  unfolding compare_hash
  look_up session_id presented = do
    at ← now
    row ← select_first sessions (is_live session_id at)
    compare_hash row session_id presented

  -- The two parts of the cookie, by its first dot.
  parsed : Option (String × String) → Action (Option ResolvedSession)
  unfolding look_up
  parsed none s = (ok none, s)
  parsed (some (session_id, presented)) s =
      if session_id == "" || presented == "" then (ok none, s) else look_up session_id presented s

  unfoldable pub resolve : Option String → Action (Option ResolvedSession)
  unfolding parsed split_at_dot
  resolve none s = (ok none, s)
  resolve (some raw) s = parsed (split_at_dot raw) s

  unfoldable pub revoke : String → Action (Unit {0})
  revoke session_id = do
    at ← now
    update sessions (λ r. r.id == session_id) (λ r. record r { revoked_at = some at })
