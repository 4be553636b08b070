-- ===== src/Domains/Tenants.antt =====
-- Which organization a domain belongs to.
use absolo_cloud_services.Base.{
  ◌+◌, String, ◌⧺◌, ◌≡◌, ap, ◌∙◌, Bool, false, ◌&&◌, is_some, ◌==◌, count, head?-filter_unseen,
  arith,
}
use absolo_cloud_services.Result.{err}
use absolo_cloud_services.Runtime.Env.{Env}
use absolo_cloud_services.Runtime.State.{State}
use absolo_cloud_services.Runtime.Action.{Action, pure, ◌>>◌, in_table, insert}
use absolo_cloud_services.Runtime.Laws.{>>=-err, refusal, insert_dangling}
use absolo_cloud_services.Schema.Domains.{Subdomain, CustomDomain}
use absolo_cloud_services.Runtime.Tables.Iam.{organizations, org_exists}
use absolo_cloud_services.Runtime.Tables.Compute.{app_exists}
use absolo_cloud_services.Runtime.Tables.Domains.{subdomains, custom_domains}
use absolo_cloud_services.Iam.Auth.{AuthenticatedUser}
use absolo_cloud_services.Domains.{
  subdomain_row, custom_domain_row, request_certificate, allocate_subdomain, add_custom_domain,
  handle_add, handle_allocate,
}

module _ ⦃env : Env⦄ where
  and_false : (a b : Bool) → b ≡ false → (a && b) ≡ false
  and_false a b h = ground (arith, h)

  unknown_org :
      (s : State)
      → count (λ r. r.id == "unknown-org") (in_table organizations s) ≡ 0
      → org_exists s "unknown-org" ≡ false
  unknown_org s h =
      ap (λ o. is_some o)
        (head?-filter_unseen (λ r. r.id == "unknown-org") (in_table organizations s) h)

  -- The rows that the calls try to insert.
  abbrev pub subdomain_at : String → String → State → Subdomain
  subdomain_at app_id slug s =
      subdomain_row ("sub" ⧺ "_" ⧺ env.ulid s.tick)
        (slug ⧺ "-" ⧺ env.random_bytes (s.tick + 1) 2 "hex" ⧺ ".absolo.app") app_id "unknown-org"
        (env.clock (s.tick + 1 + 1))

  abbrev pub custom_domain_at : String → String → State → CustomDomain
  custom_domain_at app_id name s =
      custom_domain_row ("dom" ⧺ "_" ⧺ env.ulid s.tick) name app_id "unknown-org"
        (env.clock (s.tick + 1))

  -- Where no organization has the id unknown-org, no user can add a domain to an app: both calls
  -- throw, that the host or domain is taken if it is, and otherwise that the reference is missing;
  -- no row and no certificate comes of them.
  pub handle_domains_refused :
      (user : AuthenticatedUser) (app_id name : String) (s : State)
      → count (λ r. r.id == "unknown-org") (in_table organizations s) ≡ 0
      → (handle_allocate user app_id name s ≡ (
        err (refusal subdomains (subdomain_at app_id name s) s),
        record s { tick = s.tick + 1 + 1 + 1 },
      ))
        × (handle_add user app_id name s ≡ (
          err (refusal custom_domains (custom_domain_at app_id name s) s),
          record s { tick = s.tick + 1 + 1 },
        ))
  unfolding handle_allocate handle_add allocate_subdomain add_custom_domain
  handle_domains_refused user app_id name s h =
      let v : State = record s { tick = s.tick + 1 + 1 + 1 } in
      let w : State = record s { tick = s.tick + 1 + 1 } in
      let missing =
        and_false (app_exists s app_id) (org_exists s "unknown-org") (unknown_org s h) in
      let sub = subdomain_at app_id name s in
      let id = "dom" ⧺ "_" ⧺ env.ulid s.tick in
      let dom = custom_domain_at app_id name s in
      let sub_out = insert_dangling subdomains sub v missing in
      let dom_out = insert_dangling custom_domains dom w missing in
      let rest : Action CustomDomain = request_certificate id name >> pure dom in
      (
        >>=-err (insert subdomains sub) (λ _. pure sub) v (ap (λ o. o.0) sub_out)
            ∙ ap (λ u. (err (refusal subdomains sub s), u)) (ap (λ o. o.1) sub_out),
        >>=-err (insert custom_domains dom) (λ _. rest) w (ap (λ o. o.0) dom_out)
            ∙ ap (λ u. (err (refusal custom_domains dom s), u)) (ap (λ o. o.1) dom_out),
      )
