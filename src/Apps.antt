-- ===== src/Apps.antt =====
-- Apps and deployments: services/control-plane/src/modules/apps/apps.service.ts.
pub mod Deployments
pub mod Status
use absolo_cloud_services.Base.{
  ℕ, String, ◌⧺◌, Option, none, some, given, ◌==◌, List, [], ◌∷◌, head?,
}
use absolo_cloud_services.Result.{ok, not_found}
use absolo_cloud_services.Runtime.Env.{Env}
use absolo_cloud_services.Runtime.Action.{
  Action, pure, ◌>>=◌, ◌>>◌, when, or_throw, transaction, now, new_id, select, select_first,
  update_returning, insert,
}
use absolo_cloud_services.Schema.Json.{Json, Value}
use absolo_cloud_services.Schema.Compute.{App, Deployment}
use absolo_cloud_services.Runtime.Tables.Compute.{apps, deployments}
use absolo_cloud_services.Outbox.{publish, create_saga}

abbrev pub app_row : String → String → String → String → String → ℕ → App
app_row id environment_id slug source_kind source_ref at = record {
  id = id;
  environment_id = environment_id;
  slug = slug;
  source_kind = source_kind;
  source_ref = source_ref;
  default_branch = none;
  build_spec = none;
  runtime_spec = none;
  created_at = at;
  updated_at = at;
  deleted_at = none;
}

abbrev pub deployment_row : String → App → String → Option String → ℕ → Deployment
deployment_row id app version_id source_commit_sha at = record {
  id = id;
  app_id = app.id;
  version_id = version_id;
  source_commit_sha = source_commit_sha;
  build_log_url = none;
  status = "queued";
  traffic_pct = 0;
  started_at = none;
  finished_at = none;
  created_at = at;
}

abbrev pub saga_context : String → App → Json
saga_context deployment_id app = Json.object (
    ("deploymentId", Value.str deployment_id)
    ∷ ("appId", Value.str app.id)
    ∷ ("environmentId", Value.str app.environment_id)
    ∷ ("sourceKind", Value.str app.source_kind)
    ∷ ("sourceRef", Value.str app.source_ref)
    ∷ [])

abbrev pub build_request : String → String → String → App → Json
build_request saga_id deployment_id app_id app = Json.object (
    ("sagaId", Value.str saga_id)
    ∷ ("deploymentId", Value.str deployment_id)
    ∷ ("appId", Value.str app_id)
    ∷ ("environmentId", Value.str app.environment_id)
    ∷ ("sourceKind", Value.str app.source_kind)
    ∷ ("sourceRef", Value.str app.source_ref)
    ∷ [])

abbrev pub live_notice : String → App → Json
live_notice deployment_id app = Json.object (
    ("appId", Value.str app.id)
    ∷ ("deploymentId", Value.str deployment_id)
    ∷ ("environmentId", Value.str app.environment_id)
    ∷ [])

module _ ⦃env : Env⦄ where
  unfoldable pub create_environment_app : String → String → String → String → Action App
  create_environment_app environment_id slug source_kind source_ref = do
    id ← new_id "app"
    at ← now
    insert apps (app_row id environment_id slug source_kind source_ref at)
    pure (app_row id environment_id slug source_kind source_ref at)

  abbrev pub get_environment_apps : String → Action (List App)
  get_environment_apps environment_id = select apps (λ r. r.environment_id == environment_id)

  pub queue_deployment : String → String → Option String → App → Action Deployment
  unfolding publish create_saga
  queue_deployment app_id version_id source_commit_sha app = do
    id ← new_id "dep"
    at ← now
    insert deployments (deployment_row id app version_id source_commit_sha at)
    saga_id ← create_saga "APP_DEPLOYMENT" (saga_context id app)
    publish "build.requested" (build_request saga_id id app_id app)
    pure (deployment_row id app version_id source_commit_sha at)

  -- The body of the transaction.
  pub start_deployment : String → String → Option String → Action Deployment
  unfolding queue_deployment
  start_deployment app_id version_id source_commit_sha = do
    found ← select_first apps (λ r. r.id == app_id)
    app ← or_throw (not_found ("App " ⧺ app_id ⧺ " not found")) found
    queue_deployment app_id version_id source_commit_sha app

  unfoldable pub deploy_app : String → String → Option String → Action Deployment
  unfolding start_deployment
  deploy_app app_id version_id source_commit_sha =
      transaction (start_deployment app_id version_id source_commit_sha)

  pub announce : String → Option App → Action (Unit {0})
  unfolding publish
  announce deployment_id none s = (ok tt, s)
  announce deployment_id (some app) s = publish "deployment.live" (live_notice deployment_id app) s

  -- `if (status === 'live')`
  pub announce_live : String → String → Deployment → Action (Unit {0})
  unfolding announce
  announce_live deployment_id status deployment =
      when (status == "live")
        (do app ← select_first apps (λ r. r.id == deployment.app_id); announce deployment_id app)

  -- The body of the transaction.
  pub report_status : String → String → Option String → Action Deployment
  unfolding announce_live
  report_status deployment_id status build_log_url = do
    rows ←
        update_returning deployments (λ r. r.id == deployment_id)
          (λ r. record r { status = status; build_log_url = given build_log_url r.build_log_url })
    deployment ← or_throw (not_found ("Deployment " ⧺ deployment_id ⧺ " not found")) (head? rows)
    announce_live deployment_id status deployment
    pure deployment

  unfoldable pub update_deployment_status : String → String → Option String → Action Deployment
  unfolding report_status
  update_deployment_status deployment_id status build_log_url =
      transaction (report_status deployment_id status build_log_url)
