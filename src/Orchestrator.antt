-- ===== src/Orchestrator.antt =====
-- The roll-out of apps to the cluster: services/control-plane/src/modules/orchestrator/
-- orchestrator.service.ts. Whether the clients are connected and what they answer are parameters;
-- the calls that change something are recorded in the state. Errors are only logged.
pub mod Rollout
pub mod Calls
use native.Mathlib.Nat.{le_trans}
use absolo_cloud_services.Base.{
  ℕ, zero, suc, ◌+◌, ◌-◌, ◌*◌, ◌/◌, ◌%◌, ◌≤◌, ◌<◌, String, ◌⧺◌, ◌≡◌, ◌≢◌, refl, sym, ap, ◌∙◌, ◌⊎◌,
  inl, inr, ◌↔◌, Bool, true, false, ◌&&◌, ◌||◌, not, Bool-cases, Option, none, some, is_some,
  some_eq, or_default, given, ◌==◌, eq_refl, eq_iff, eq_comm, nat_eq, ltb, leb, List, [], ◌∷◌, ◌++◌,
  map, head?, find, filter, length, get_elem?, count, count_congr, count_mono, count-false,
  count_none, count_split, count_or_le, count_disjoint, count-append, count_pos_of_head?,
  head?-filter_unseen, head?-filter_seen, head?-filter_only, head?-filter-none, head?-filter-some,
  head?-filter-count, length-filter, and_left, and_right, and_intro, Option-cases, if◌then◌else◌,
  arith,
}
use absolo_cloud_services.Result.{
  Result, ok, err, is_ok, Error, not_found, conflict, unauthorized, forbidden, bad_request,
  unique_violation, foreign_key_violation, failure, Result-cases,
}
use absolo_cloud_services.Runtime.Env.{Env}
use absolo_cloud_services.Runtime.State.{State}
use absolo_cloud_services.Runtime.Action.{
  Action, pure, throw, ◌>>=◌, ◌>>◌, when, or_throw, catch, transaction, lift, next, respond, send,
  now, new_id, Relation, in_table, select, select_first, clash, update_returning, insert_all,
  insert, insert_or_ignore, upsert, update, delete,
}
use absolo_cloud_services.Texts.{decimal}
use absolo_cloud_services.Runtime.Stripe.{Call}
use absolo_cloud_services.Runtime.Cluster.{AppDeployment, AppService}
use absolo_cloud_services.Schema.Compute.{App}
use absolo_cloud_services.Schema.Projects.{Project, Environment}
use absolo_cloud_services.Runtime.Tables.Compute.{apps}
use absolo_cloud_services.Runtime.Tables.Projects.{projects, environments}

-- The event's payload: each key may be missing.
pub record DeploymentPayload : Type 0 where
  pub app_id : String
  pub deployment_id : Option String
  pub image_tag : Option String
  pub saga_id : Option String

-- A row of the join of apps, environments and projects.
pub record Hierarchy : Type 0 where
  pub app_id : String
  pub app_slug : String
  pub env_id : String
  pub env_slug : String
  pub proj_id : String
  pub proj_slug : String
  pub org_id : String

-- `a || b`
abbrev pub text_or : Option String → String → String
text_or none b = b
text_or (some a) b = if a == "" then b else a

abbrev pub joined : App → Environment → Project → Hierarchy
joined a e p = record {
  app_id = a.id;
  app_slug = a.slug;
  env_id = e.id;
  env_slug = e.slug;
  proj_id = p.id;
  proj_slug = p.slug;
  org_id = p.org_id;
}

unfoldable pub join_projects : App → Environment → List Project → List Hierarchy
join_projects a e [] = []
join_projects a e (p ∷ ps) =
    let rest = join_projects a e ps in if p.id == e.project_id then joined a e p ∷ rest else rest

unfoldable pub join_environments : App → List Environment → List Project → List Hierarchy
unfolding join_projects
join_environments a [] ps = []
join_environments a (e ∷ es) ps =
    let rest = join_environments a es ps in
    if e.id == a.environment_id then join_projects a e ps ++ rest else rest

unfoldable pub join_apps : List App → List Environment → List Project → List Hierarchy
unfolding join_environments
join_apps [] es ps = []
join_apps (a ∷ l) es ps = join_environments a es ps ++ join_apps l es ps

abbrev pub namespace_of : Hierarchy → String
namespace_of h = "org-" ⧺ h.org_id ⧺ "-app-" ⧺ h.app_id

abbrev pub label_of : String → String
label_of app_id = "app-" ⧺ app_id

abbrev pub release_of : Hierarchy → String → String
release_of h deployment = "app-" ⧺ h.app_id ⧺ "-" ⧺ deployment

abbrev pub deployment_of : Hierarchy → String → DeploymentPayload → AppDeployment
deployment_of h release payload = record {
  name = release;
  namespace = namespace_of h;
  app_label = label_of h.app_id;
  deployment_label = payload.deployment_id;
  replicas = 1;
  image = text_or payload.image_tag "nginx:alpine";
}

abbrev pub service_of : Hierarchy → String → AppService
service_of h release = record {
  name = label_of h.app_id;
  namespace = namespace_of h;
  selector = release;
}

module _ ⦃env : Env⦄ where
  abbrev pub app_hierarchy : String → Action (Option Hierarchy)
  app_hierarchy app_id s = (
    ok (
        head? (
          join_apps (filter (λ r. r.id == app_id) (in_table apps s)) (in_table environments s)
            (in_table projects s))),
    s,
  )

  unfoldable pub ensure_namespace : String → Action (Unit {0})
  ensure_namespace namespace =
      catch (respond (λ n. env.read_namespace n namespace))
        (λ _. send (Call.create_app_namespace namespace) env.create_app_namespace)

  -- Where the deployment cannot be read or replaced, it is created.
  unfoldable pub upsert_deployment : AppDeployment → Action (Unit {0})
  upsert_deployment d =
      catch
        (respond (λ n. env.read_deployment n d.name d.namespace)
          >> send (Call.replace_deployment d) env.replace_deployment)
        (λ _. send (Call.create_deployment d) env.create_deployment)

  unfoldable pub upsert_service : AppService → Action (Unit {0})
  upsert_service v =
      catch
        (respond (λ n. env.read_service n v.name v.namespace)
          >> send (Call.replace_service v) env.replace_service)
        (λ _. send (Call.create_service v) env.create_service)

  unfoldable pub update_routing : Hierarchy → Action (Unit {0})
  update_routing h = when env.has_routes (
      send
        (Call.put_route (h.app_slug ⧺ ".absolo.app")
          ("http://" ⧺ label_of h.app_id ⧺ "." ⧺ namespace_of h ⧺ ".svc.cluster.local:80"))
        env.put_route)

  -- The block in `try`.
  unfoldable pub apply_release : Hierarchy → String → DeploymentPayload → Action (Unit {0})
  unfolding ensure_namespace upsert_deployment upsert_service update_routing
  apply_release h release payload = do
    ensure_namespace (namespace_of h)
    upsert_deployment (deployment_of h release payload)
    upsert_service (service_of h release)
    update_routing h

  -- `natsClient.publish(…)`, which does not wait.
  unfoldable pub announce : DeploymentPayload → Action (Unit {0})
  announce payload =
      when env.has_bus
        (send (Call.publish_live payload.saga_id payload.deployment_id "READY") (λ _. ok tt))

  -- `payload.deployment_id || Date.now()`
  release_suffix : Option String → Action String
  unfolding decimal
  release_suffix none s = (do at ← now; pure (decimal at)) s
  release_suffix (some id) s = if id == "" then (do at ← now; pure (decimal at)) s else (ok id, s)

  -- An error of the cluster ends the roll-out before the announcement.
  unfoldable pub roll_out : Hierarchy → DeploymentPayload → String → Action (Unit {0})
  unfolding apply_release announce
  roll_out h payload suffix =
      catch (when env.has_cluster (apply_release h (release_of h suffix) payload) >> pure true)
        (λ _. pure false)
      >>= λ applied. when applied (announce payload)

  deploy_found : Option Hierarchy → DeploymentPayload → Action (Unit {0})
  unfolding roll_out release_suffix
  deploy_found none payload s = (ok tt, s)
  deploy_found (some h) payload s = (release_suffix payload.deployment_id >>= roll_out h payload) s

  unfoldable pub deploy_to_k3s : DeploymentPayload → Action (Unit {0})
  unfolding join_apps deploy_found
  deploy_to_k3s payload = do found ← app_hierarchy payload.app_id; deploy_found found payload

  -- The deployment that was read is sent back under the name that was asked for.
  replace_scaled : String → String → ℕ → Option AppDeployment → Action (Unit {0})
  replace_scaled name namespace replicas none s = (ok tt, s)
  replace_scaled name namespace replicas (some d) s =
      send
        (Call.replace_deployment
          (record d { name = name; namespace = namespace; replicas = replicas }))
        env.replace_deployment s

  abbrev pub scaled_namespace : String → Hierarchy → String
  scaled_namespace app_id h = "org-" ⧺ h.org_id ⧺ "-app-" ⧺ app_id

  scale_found : String → ℕ → Option Hierarchy → Action (Unit {0})
  unfolding replace_scaled
  scale_found app_id replicas none s = (err (failure ("App " ⧺ app_id ⧺ " not found")), s)
  scale_found app_id replicas (some h) s =
      when env.has_cluster
        (catch
          (respond (λ n. env.read_deployment n (label_of app_id) (scaled_namespace app_id h))
            >>= replace_scaled (label_of app_id) (scaled_namespace app_id h) replicas)
          (λ _. pure tt))
        s

  unfoldable pub scale_app : String → ℕ → Action (Unit {0})
  unfolding join_apps scale_found
  scale_app app_id replicas = do found ← app_hierarchy app_id; scale_found app_id replicas found
