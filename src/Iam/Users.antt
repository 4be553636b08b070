-- ===== src/Iam/Users.antt =====
-- Accounts: services/control-plane/src/modules/iam/users.service.ts, on ASCII e-mail addresses.
pub mod Accounts
use Prim.Native.Char.{Char, code}
use absolo_cloud_services.Base.{
  ℕ, String, ◌⧺◌, Bool, false, ◌&&◌, ◌||◌, Option, none, some, ◌==◌, nat_eq, leb, if◌then◌else◌,
}
use absolo_cloud_services.Result.{err, not_found, conflict}
use absolo_cloud_services.Runtime.Env.{Env}
use absolo_cloud_services.Runtime.Action.{
  Action, pure, ◌>>=◌, ◌>>◌, or_throw, next, now, new_id, select_first, insert,
}
use absolo_cloud_services.Texts.{to_lower}
use absolo_cloud_services.Schema.Iam.{User}
use absolo_cloud_services.Runtime.Tables.Iam.{users}

is_space : Char → Bool
is_space c = nat_eq (code c) 32 || (leb 9 (code c) && leb (code c) 13)

trim_start : String → String
unfolding is_space
trim_start String.[] = ""
trim_start (String.◌∷◌ c s) = let rest = trim_start s in if is_space c then rest else String.◌∷◌ c s

cons_unless_blank : Char → String → String
unfolding is_space
cons_unless_blank c String.[] = if is_space c then "" else String.◌∷◌ c ""
cons_unless_blank c (String.◌∷◌ d s) = String.◌∷◌ c (String.◌∷◌ d s)

trim_end : String → String
unfolding cons_unless_blank
trim_end String.[] = ""
trim_end (String.◌∷◌ c s) = cons_unless_blank c (trim_end s)

-- `email.toLowerCase().trim()`
unfoldable pub normalise : String → String
unfolding to_lower trim_start trim_end
normalise email = trim_end (trim_start (to_lower email))

abbrev pub new_user : String → String → String → String → ℕ → User
new_user id email full_name hash at = record {
  id = id;
  email = email;
  full_name = full_name;
  avatar_url = none;
  password_hash = hash;
  mfa_enabled = false;
  email_verified_at = none;
  locked_at = none;
  created_at = at;
  updated_at = at;
}

module _ ⦃env : Env⦄ where
  abbrev pub find_by_email : String → Action (Option User)
  find_by_email email = select_first users (λ r. r.email == normalise email)

  abbrev pub get_by_id : String → Action User
  get_by_id id = do
    row ← select_first users (λ r. r.id == id)
    or_throw (not_found ("User " ⧺ id ⧺ " not found")) row

  abbrev pub hash_password : String → Action String
  hash_password plaintext = next (λ n. env.argon2_hash n plaintext)

  insert_user : String → String → String → Action User
  insert_user email full_name password = do
    hash ← hash_password password
    id ← new_id "usr"
    at ← now
    insert users (new_user id email full_name hash at)
    pure (new_user id email full_name hash at)

  create_unless : Option User → String → String → String → Action User
  unfolding insert_user
  create_unless (some existing) email full_name password s =
      (err (conflict "An account with this email already exists"), s)
  create_unless none email full_name password s = insert_user email full_name password s

  unfoldable pub create_user : String → String → String → Action User
  unfolding create_unless
  create_user email full_name password = do
    existing ← find_by_email (normalise email)
    create_unless existing (normalise email) full_name password
