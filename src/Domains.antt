-- ===== src/Domains.antt =====
-- The domains of apps: services/control-plane/src/modules/domains/domains.service.ts and
-- domains.controller.ts.
pub mod Tenants
use native.Mathlib.Nat.{le_trans}
use absolo_cloud_services.Base.{
  ℕ, zero, suc, ◌+◌, ◌-◌, ◌*◌, ◌/◌, ◌%◌, ◌≤◌, ◌<◌, String, ◌⧺◌, ◌≡◌, ◌≢◌, refl, sym, ap, ◌∙◌, ◌⊎◌,
  inl, inr, ◌↔◌, Bool, true, false, ◌&&◌, ◌||◌, not, Bool-cases, Option, none, some, is_some,
  some_eq, or_default, given, ◌==◌, eq_refl, eq_iff, eq_comm, nat_eq, ltb, leb, List, [], ◌∷◌, ◌++◌,
  map, head?, find, filter, length, get_elem?, count, count_congr, count_mono, count-false,
  count_none, count_split, count_or_le, count_disjoint, count-append, count_pos_of_head?,
  head?-filter_unseen, head?-filter_seen, head?-filter_only, head?-filter-none, head?-filter-some,
  head?-filter-count, length-filter, and_left, and_right, and_intro, Option-cases, if◌then◌else◌,
  arith,
}
use absolo_cloud_services.Result.{
  Result, ok, err, is_ok, Error, not_found, conflict, unauthorized, forbidden, bad_request,
  unique_violation, foreign_key_violation, failure, Result-cases,
}
use absolo_cloud_services.Runtime.Env.{Env}
use absolo_cloud_services.Runtime.State.{State}
use absolo_cloud_services.Runtime.Action.{
  Action, pure, throw, ◌>>=◌, ◌>>◌, when, or_throw, catch, transaction, lift, next, respond, send,
  now, new_id, Relation, in_table, select, select_first, clash, update_returning, insert_all,
  insert, insert_or_ignore, upsert, update, delete,
}
use absolo_cloud_services.Schema.Domains.{Subdomain, CustomDomain}
use absolo_cloud_services.Runtime.Tables.Domains.{subdomains, custom_domains}
use absolo_cloud_services.Iam.Auth.{AuthenticatedUser}

pub record Domains : Type 0 where
  pub subdomain_rows : List Subdomain
  pub custom_domain_rows : List CustomDomain

abbrev pub subdomain_row : String → String → String → String → ℕ → Subdomain
subdomain_row id full_host app_id org_id at = record {
  id = id;
  full_host = full_host;
  app_id = some app_id;
  org_id = org_id;
  created_at = at;
}

abbrev pub custom_domain_row : String → String → String → String → ℕ → CustomDomain
custom_domain_row id domain_name app_id org_id at = record {
  id = id;
  domain_name = domain_name;
  app_id = some app_id;
  org_id = org_id;
  status = "PENDING_VERIFICATION";
  verified_at = none;
  created_at = at;
}

-- `req.user?.orgId || 'unknown-org'`: the user that the guard sets has no field of that name.
abbrev pub org_of_request : AuthenticatedUser → String
org_of_request user = "unknown-org"

module _ ⦃env : Env⦄ where
  unfoldable pub allocate_subdomain : String → String → String → Action Subdomain
  allocate_subdomain org_id app_id slug = do
    id ← new_id "sub"
    rand ← next (λ n. env.random_bytes n 2 "hex")
    at ← now
    insert subdomains (subdomain_row id (slug ⧺ "-" ⧺ rand ⧺ ".absolo.app") app_id org_id at)
    pure (subdomain_row id (slug ⧺ "-" ⧺ rand ⧺ ".absolo.app") app_id org_id at)

  unfoldable pub list_domains : String → String → Action Domains
  list_domains org_id app_id = do
    subs ← select subdomains (λ r. some_eq r.app_id app_id && r.org_id == org_id)
    customs ← select custom_domains (λ r. some_eq r.app_id app_id && r.org_id == org_id)
    pure (record { subdomain_rows = subs; custom_domain_rows = customs })

  -- A failed request for a certificate is only logged.
  request_certificate : String → String → Action (Unit {0})
  request_certificate id domain_name =
      when env.has_cluster
        (catch (respond (λ n. env.create_certificate n ("cert-" ⧺ id) domain_name)) (λ _. pure tt))

  unfoldable pub add_custom_domain : String → String → String → Action CustomDomain
  unfolding request_certificate
  add_custom_domain org_id app_id domain_name = do
    id ← new_id "dom"
    at ← now
    insert custom_domains (custom_domain_row id domain_name app_id org_id at)
    request_certificate id domain_name
    pure (custom_domain_row id domain_name app_id org_id at)

  -- The three routes of the controller.
  unfoldable pub handle_list : AuthenticatedUser → String → Action Domains
  unfolding list_domains
  handle_list user app_id = list_domains (org_of_request user) app_id

  unfoldable pub handle_add : AuthenticatedUser → String → String → Action CustomDomain
  unfolding add_custom_domain
  handle_add user app_id domain_name = add_custom_domain (org_of_request user) app_id domain_name

  unfoldable pub handle_allocate : AuthenticatedUser → String → String → Action Subdomain
  unfolding allocate_subdomain
  handle_allocate user app_id slug = allocate_subdomain (org_of_request user) app_id slug
