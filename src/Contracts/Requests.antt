-- ===== src/Contracts/Requests.antt =====
-- The bodies of requests, as the schemas of packages/contracts/src/auth/auth.ts and
-- packages/contracts/src/projects/projects.ts accept them, on ASCII texts. A body that a schema
-- refuses is `none`; the format of addresses is zod's, an argument.
pub mod Steps
use mathlib.Core.Option
use absolo_cloud_services.Base.{
  ℕ, String, Bool, true, false, ◌&&◌, ◌==◌, Option, none, some, List, [], ◌∷◌, leb, ltb, nat_eq,
  count, if◌then◌else◌,
}
use absolo_cloud_services.Texts.{to_lower, text_length}
use absolo_cloud_services.Schema.Scalars.{is_digit}
use absolo_cloud_services.Contracts.JsonValues.{Value, bool, obj, Fields, lookup, only_keys}
use absolo_cloud_services.Contracts.Primitives.{is_slug}
use absolo_cloud_services.Contracts.Envelopes.{◌>>=◌, required_text}
use absolo_cloud_services.Projects.{CreateProjectRequest, UpdateProjectRequest}

-- `SignupRequest`
pub record SignupRequest : Type 0 where
  pub email : String
  pub password : String
  pub full_name : String
  pub marketing_opt_in : Bool
  pub captcha_token : String

-- `LoginRequest`
pub record LoginRequest : Type 0 where
  pub email : String
  pub password : String
  pub mfa_code : Option String

-- `z.object(…).strict()`
abbrev pub strict {ℓ} : {A : Type ℓ} → List String → (Fields → Option A) → Value → Option A
strict keys read (obj fs) = if only_keys keys fs then read fs else none
strict keys read _ = none

-- A further check of a text that was read.
abbrev pub passing : (String → Bool) → String → Option String
passing p s = if p s then some s else none

-- `z.string().min(low).max(high)`
abbrev pub has_length : ℕ → ℕ → String → Bool
has_length low high s = leb low (text_length s) && leb (text_length s) high

-- `.optional()` on a schema of texts
abbrev pub optional : (String → Bool) → Option Value → Option (Option String)
optional p none = some none
optional p (some v) = Option.map some (required_text (some v) >>= passing p)

-- `z.boolean().default(b)`
abbrev pub flag_or : Bool → Option Value → Option Bool
flag_or b none = some b
flag_or b (some (bool v)) = some v
flag_or b (some _) = none

-- `z.enum(names)`
abbrev pub is_one_of : List String → String → Bool
is_one_of names s = ltb 0 (count (λ n. n == s) names)

unfoldable pub all_digits : String → Bool
unfolding is_digit
all_digits String.[] = true
all_digits (String.◌∷◌ c s) = is_digit c && all_digits s

-- `/^\d{6}$/`
abbrev pub is_mfa_code : String → Bool
is_mfa_code s = nat_eq (text_length s) 6 && all_digits s

-- `PasswordSchema`
abbrev pub is_password : String → Bool
is_password s = has_length 12 256 s

-- `EmailSchema`: the checks and the change to lower case in their order.
abbrev pub to_email : (String → Bool) → String → Option String
to_email is_email s =
    if is_email s && leb (text_length (to_lower s)) 254 then some (to_lower s) else none

unfoldable pub read_signup : (String → Bool) → Fields → Option SignupRequest
unfolding lookup
read_signup is_email fs = required_text (lookup "email" fs) >>= to_email is_email >>= λ email.
    required_text (lookup "password" fs) >>= passing is_password >>= λ password.
    required_text (lookup "fullName" fs) >>= passing (has_length 1 120) >>= λ full_name.
    flag_or false (lookup "marketingOptIn" fs) >>= λ marketing_opt_in.
    required_text (lookup "captchaToken" fs)
    >>= passing (λ s. leb 1 (text_length s))
    >>= λ captcha_token. some (record {
      email = email;
      password = password;
      full_name = full_name;
      marketing_opt_in = marketing_opt_in;
      captcha_token = captcha_token;
    })

-- `SignupRequestSchema`
unfoldable pub signup_request : (String → Bool) → Value → Option SignupRequest
unfolding only_keys read_signup
signup_request is_email =
    strict ("email" ∷ "password" ∷ "fullName" ∷ "marketingOptIn" ∷ "captchaToken" ∷ [])
      (read_signup is_email)

unfoldable pub read_login : (String → Bool) → Fields → Option LoginRequest
unfolding lookup all_digits
read_login is_email fs = required_text (lookup "email" fs) >>= to_email is_email >>= λ email.
    required_text (lookup "password" fs) >>= passing is_password >>= λ password.
    optional is_mfa_code (lookup "mfaCode" fs) >>= λ mfa_code.
    some (record { email = email; password = password; mfa_code = mfa_code })

-- `LoginRequestSchema`
unfoldable pub login_request : (String → Bool) → Value → Option LoginRequest
unfolding only_keys read_login
login_request is_email = strict ("email" ∷ "password" ∷ "mfaCode" ∷ []) (read_login is_email)

-- The fields after the slug.
unfoldable pub read_project : Fields → String → Option CreateProjectRequest
unfolding lookup is_slug
read_project fs slug = required_text (lookup "name" fs) >>= passing (has_length 1 120) >>= λ name.
    optional (λ s. leb (text_length s) 2000) (lookup "description" fs) >>= λ description.
    required_text (lookup "kind" fs)
    >>= passing (is_one_of ("app" ∷ "site" ∷ "mixed" ∷ []))
    >>= λ kind. optional (λ _. true) (lookup "region" fs) >>= λ region.
        optional is_slug (lookup "templateSlug" fs) >>= λ template_slug. some (record {
          slug = slug;
          name = name;
          description = description;
          kind = kind;
          region = region;
          template_slug = template_slug;
        })

-- `CreateProjectRequestSchema`
unfoldable pub create_project_request : Value → Option CreateProjectRequest
unfolding lookup only_keys is_slug read_project
create_project_request =
    strict ("slug" ∷ "name" ∷ "description" ∷ "kind" ∷ "region" ∷ "templateSlug" ∷ [])
      (λ fs. required_text (lookup "slug" fs) >>= passing is_slug >>= read_project fs)

unfoldable pub read_changes : Fields → Option UpdateProjectRequest
unfolding lookup
read_changes fs = optional (has_length 1 120) (lookup "name" fs) >>= λ name.
    optional (λ s. leb (text_length s) 2000) (lookup "description" fs) >>= λ description.
    optional (is_one_of ("active" ∷ "paused" ∷ [])) (lookup "status" fs) >>= λ status.
    some (record { name = name; description = description; status = status })

-- `UpdateProjectRequestSchema`
unfoldable pub update_project_request : Value → Option UpdateProjectRequest
unfolding only_keys read_changes
update_project_request = strict ("name" ∷ "description" ∷ "status" ∷ []) read_changes
