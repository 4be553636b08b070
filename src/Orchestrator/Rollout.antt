-- ===== src/Orchestrator/Rollout.antt =====
-- When a deployment is announced as live.
use absolo_cloud_services.Base.{
  ◌+◌, String, ◌≡◌, refl, sym, ap, ◌∙◌, ◌⊎◌, inl, inr, Bool, true, false, Bool-cases, Option, none,
  some, ◌==◌, List, ◌∷◌, ◌++◌, head?, filter, count, Option-cases,
}
use absolo_cloud_services.Result.{Result, ok, is_ok, Error, Result-cases}
use absolo_cloud_services.Runtime.Env.{Env}
use absolo_cloud_services.Runtime.State.{State}
use absolo_cloud_services.Runtime.Action.{Action, pure, ◌>>◌, when, catch, in_table}
use absolo_cloud_services.Runtime.Laws.{>>=-ok, >>=-err, catch-ok, catch-err}
use absolo_cloud_services.Runtime.Stripe.{Call}
use absolo_cloud_services.Base.{
  ◌+◌, String, ◌≡◌, refl, sym, ap, ◌∙◌, ◌⊎◌, inl, inr, Bool, true, false, Bool-cases, Option, none,
  some, ◌==◌, head?, filter, count, Option-cases,
}
use absolo_cloud_services.Result.{Result, ok, is_ok, Error, Result-cases}
use absolo_cloud_services.Runtime.Env.{Env}
use absolo_cloud_services.Runtime.State.{State}
use absolo_cloud_services.Runtime.Action.{Action, pure, ◌>>◌, when, catch, in_table}
use absolo_cloud_services.Runtime.Laws.{>>=-ok, >>=-err, catch-ok, catch-err}
use absolo_cloud_services.Orchestrator.{
  DeploymentPayload, Hierarchy, release_of, service_of, apply_release,
}
use absolo_cloud_services.Orchestrator.Calls.{is_announcement, Pointed}

module _ ⦃env : Env⦄ where
  -- The app's service was pointed to the release, where there is a cluster.
  abbrev pub Released : Hierarchy → String → List Call → Type 0
  Released h suffix made =
      (env.has_cluster ≡ false) ⊎ Pointed (service_of h (release_of h suffix)) made

  -- What a roll-out ends in: nothing announced, or an announcement, the newest call, after calls
  -- that are none and that pointed the service.
  abbrev pub RolledOut :
      Hierarchy → String → DeploymentPayload → State → Result (Unit {0}) × State → Type 0
  RolledOut h suffix payload s o =
      (o.0 ≡ ok tt)
      × (made : List Call) × (count is_announcement made ≡ 0)
      × ((o.1.calls ≡ made ++ s.calls)
          ⊎ ((o.1.calls
                ≡ Call.publish_live payload.saga_id payload.deployment_id "READY"
                  ∷ (made ++ s.calls))
              × Released h suffix made))

  abbrev applied : Hierarchy → DeploymentPayload → String → Action Bool
  applied h payload suffix =
      catch (when env.has_cluster (apply_release h (release_of h suffix) payload) >> pure true)
        (λ _. pure false)
