-- ===== src/Iam/Slugify.antt =====
-- The slug of a new organization: `slugifyEmailLocal` and `randomSuffix` of
-- services/control-plane/src/modules/iam/orgs.service.ts, on ASCII e-mail addresses.
pub mod Shape
use Prim.Native.Char.{Char, code}
use absolo_cloud_services.Base.{String, ◌⧺◌, Bool, true, false, not, nat_eq, leb, if◌then◌else◌}
use absolo_cloud_services.Runtime.Env.{Env}
use absolo_cloud_services.Runtime.Action.{Action, pure, ◌>>=◌, next}
use absolo_cloud_services.Texts.{first_chars, drop_chars, to_lower, text_length}
use absolo_cloud_services.Contracts.Primitives.{is_alnum, is_hyphen}

-- `email.split('@')[0]`
unfoldable pub before_at : String → String
before_at String.[] = ""
before_at (String.◌∷◌ c s) =
    let rest = before_at s in if nat_eq (code c) 64 then "" else String.◌∷◌ c rest

-- A character in front of what the replacement made of the rest: in a run of other characters only
-- the first becomes a hyphen.
unfoldable pub put_char : Bool → Char → String → String
put_char in_run c rest =
    if is_alnum c then String.◌∷◌ c rest else if in_run then rest else String.◌∷◌ "-" rest

-- `s.replaceAll(/[^a-z0-9]+/g, '-')`
unfoldable pub hyphenate : Bool → String → String
unfolding put_char
hyphenate in_run String.[] = ""
hyphenate in_run (String.◌∷◌ c s) = put_char in_run c (hyphenate (not (is_alnum c)) s)

unfoldable pub trim_hyphens_start : String → String
trim_hyphens_start String.[] = ""
trim_hyphens_start (String.◌∷◌ c s) =
    let rest = trim_hyphens_start s in if is_hyphen c then rest else String.◌∷◌ c s

unfoldable pub put_unless_last : Char → String → String
put_unless_last c String.[] = if is_hyphen c then "" else String.◌∷◌ c ""
put_unless_last c (String.◌∷◌ d s) = String.◌∷◌ c (String.◌∷◌ d s)

unfoldable pub trim_hyphens_end : String → String
unfolding put_unless_last
trim_hyphens_end String.[] = ""
trim_hyphens_end (String.◌∷◌ c s) = put_unless_last c (trim_hyphens_end s)

-- `s.replaceAll(/^-+|-+$/g, '')` after the hyphenation
unfoldable pub trimmed_local : String → String
unfolding hyphenate trim_hyphens_start trim_hyphens_end before_at
trimmed_local email =
    trim_hyphens_end (trim_hyphens_start (hyphenate false (to_lower (before_at email))))

unfoldable pub cleaned : String → String
unfolding trimmed_local
cleaned email = first_chars 32 (trimmed_local email)

module _ ⦃env : Env⦄ where
  -- `Math.random().toString(36).slice(2, 8)`
  abbrev pub random_suffix : Action String
  random_suffix = next (λ n. first_chars 6 (drop_chars 2 (env.random_base36 n)))

  slug_or_user : String → Action String
  slug_or_user slug s =
      if leb 2 (text_length slug)
      then (pure slug) s
      else (do suffix ← random_suffix; pure ("user-" ⧺ suffix)) s

  unfoldable pub slugify_email_local : String → Action String
  unfolding slug_or_user
  slugify_email_local email = slug_or_user (cleaned email)
