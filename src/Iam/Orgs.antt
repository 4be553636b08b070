-- ===== src/Iam/Orgs.antt =====
-- Organizations: services/control-plane/src/modules/iam/orgs.service.ts.
pub mod Owners
use absolo_cloud_services.Base.{
  ℕ, zero, suc, none, some, true, false, ◌⧺◌, or_default, String, Bool, ◌&&◌, Option, ◌==◌, List,
  map,
}
use absolo_cloud_services.Result.{ok, err, Error, unique_violation, failure}
use absolo_cloud_services.Runtime.Env.{Env}
use absolo_cloud_services.Runtime.Action.{
  Action, pure, ◌>>=◌, ◌>>◌, now, new_id, catch, insert, select, select_first,
}
use absolo_cloud_services.Schema.Iam.{Membership, Organization}
use absolo_cloud_services.Runtime.Tables.Iam.{memberships, organizations}
use absolo_cloud_services.Iam.Slugify.{random_suffix, slugify_email_local}

abbrev pub is_membership : String → String → Membership → Bool
is_membership user_id org_id r = r.user_id == user_id && r.org_id == org_id

abbrev pub new_org : String → String → String → ℕ → Organization
new_org id slug full_name at = record {
  stripe_customer_id = none;
  stripe_subscription_id = none;
  spend_cap_limit_cents = none;
  id = id;
  slug = slug;
  name = full_name ⧺ "'s workspace";
  default_region = "eu-central";
  plan = "free";
  created_at = at;
  updated_at = at;
  deleted_at = none;
}

abbrev pub owner_membership : String → String → ℕ → Membership
owner_membership user_id org_id at = record {
  user_id = user_id;
  org_id = org_id;
  role = "owner";
  joined_at = at;
}

abbrev pub no_slug_left : Error
no_slug_left = failure "failed to allocate org slug after 5 attempts"

module _ ⦃env : Env⦄ where
  abbrev pub find_membership : String → String → Action (Option Membership)
  find_membership user_id org_id = select_first memberships (is_membership user_id org_id)

  abbrev pub list_org_ids_for_user : String → Action (List String)
  list_org_ids_for_user user_id = do
    rows ← select memberships (λ r. r.user_id == user_id)
    pure (map (λ r. r.org_id) rows)

  -- The two inserts of an attempt.
  store_org : String → String → String → String → Action Organization
  store_org user_id org_id full_name slug = do
    at ← now
    insert organizations (new_org org_id slug full_name at)
    joined_at ← now
    insert memberships (owner_membership user_id org_id joined_at)
    pure (new_org org_id slug full_name at)

  -- `attempt === 0 ? baseSlug : …`
  slug_of_attempt : Bool → String → Action String
  slug_of_attempt true base s = (ok base, s)
  slug_of_attempt false base s = (do suffix ← random_suffix; pure (base ⧺ "-" ⧺ suffix)) s

  -- `catch (err)`: only a slug or a key that is taken is tried again.
  retry_on : Error → Action Organization → Action Organization
  retry_on unique_violation again s = again s
  retry_on e again s = (err e, s)

  -- The loop with the attempts that are left and the last error.
  allocate : ℕ → Bool → Option Error → String → String → String → String → Action Organization
  unfolding store_org slug_of_attempt retry_on
  allocate zero is_first last user_id org_id full_name base s =
      (err (or_default last no_slug_left), s)
  allocate (suc left) is_first last user_id org_id full_name base s =
      (slug_of_attempt is_first base >>= λ slug.
      catch (store_org user_id org_id full_name slug)
        (λ e. retry_on e (λ u. allocate left false (some e) user_id org_id full_name base u)))
        s

  unfoldable pub create_personal_org : String → String → String → Action Organization
  unfolding allocate slugify_email_local
  create_personal_org user_id email full_name = do
    base ← slugify_email_local email
    org_id ← new_id "org"
    allocate 5 true none user_id org_id full_name base
