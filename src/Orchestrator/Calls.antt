-- ===== src/Orchestrator/Calls.antt =====
-- Which calls the steps of a roll-out make.
use absolo_cloud_services.Base.{
  ℕ, ◌+◌, String, ◌⧺◌, ◌≡◌, refl, sym, ap, ◌∙◌, ◌⊎◌, inl, inr, Bool, true, false, Option, List, [],
  ◌∷◌, ◌++◌, count, count-append, arith,
}
use absolo_cloud_services.Result.{Result, ok, Error, Result-cases}
use absolo_cloud_services.Runtime.Env.{Env}
use absolo_cloud_services.Runtime.State.{State}
use absolo_cloud_services.Runtime.Action.{Action, pure, ◌>>=◌, ◌>>◌, when, catch, respond, send}
use absolo_cloud_services.Runtime.Laws.{>>=-ok, >>=-err, >>=-eq-ok, catch-ok, catch-err}
use mathlib.Core.Path.{subst}
use mathlib.Core.List.{append_assoc}
use absolo_cloud_services.Result.{Result, ok, Error, Result-cases}
use absolo_cloud_services.Runtime.Env.{Env}
use absolo_cloud_services.Runtime.State.{State}
use absolo_cloud_services.Runtime.Action.{Action, pure, ◌>>=◌, ◌>>◌, catch, respond, send, when}
use absolo_cloud_services.Runtime.Laws.{>>=-ok, >>=-err, >>=-eq-ok, catch-ok, catch-err}
use absolo_cloud_services.Runtime.Stripe.{Call}
use absolo_cloud_services.Runtime.Cluster.{AppDeployment, AppService}
use absolo_cloud_services.Orchestrator.{
  DeploymentPayload, Hierarchy, label_of, namespace_of, deployment_of, service_of, ensure_namespace,
  upsert_deployment, upsert_service, update_routing, apply_release,
}

abbrev pub is_announcement : Call → Bool
is_announcement (Call.publish_live saga_id deployment_id status) = true
is_announcement _ = false

module _ ⦃env : Env⦄ where
  -- A call that points an app's service to a release, and that the cluster answered without an error.
  abbrev pub Accepted : AppService → Call → Type 0
  Accepted v c =
      ((c ≡ Call.replace_service v) × (n : ℕ) × (env.replace_service n ≡ ok tt))
      ⊎ ((c ≡ Call.create_service v) × (n : ℕ) × (env.create_service n ≡ ok tt))

  -- One of the calls, newest first, pointed the service.
  abbrev pub Pointed : AppService → List Call → Type 0
  Pointed v calls =
      (later : List Call) × (c : Call) × (earlier : List Call) × (calls ≡ later ++ c ∷ earlier)
      × Accepted v c

  -- The calls made since, none of them an announcement.
  abbrev pub Adds : List Call → State → State → Type 0
  Adds made s u = (count is_announcement made ≡ 0) × (u.calls ≡ made ++ s.calls)

  abbrev pub Quiet : {A : Type 0} → State → Result A × State → Type 0
  Quiet s o = (made : List Call) × Adds made s o.1

  Adds-trans :
      (made after : List Call) (s u v : State)
      → Adds made s u
      → Adds after u v
      → Adds (after ++ made) s v
  Adds-trans made after s u v (quiet, e) (quiet', e') = (
    count-append is_announcement after made ∙ omega (arith, quiet, quiet'),
    e' ∙ ap (λ l. after ++ l) e ∙ sym (append_assoc after made s.calls),
  )

  Pointed-later :
      (v : AppService) (after calls : List Call) → Pointed v calls → Pointed v (after ++ calls)
  Pointed-later v after calls (later, c, earlier, e, accepted) = (
    after ++ later,
    c,
    earlier,
    ap (λ l. after ++ l) e ∙ sym (append_assoc after later (c ∷ earlier)),
    accepted,
  )

  Pointed-earlier :
      (v : AppService) (calls before : List Call) → Pointed v calls → Pointed v (calls ++ before)
  Pointed-earlier v calls before (later, c, earlier, e, accepted) = (
    later,
    c,
    earlier ++ before,
    ap (λ l. l ++ before) e ∙ append_assoc later (c ∷ earlier) before,
    accepted,
  )

  Quiet->>= :
      {A B : Type 0} (m : Action A) (k : A → Action B) (s : State)
      → Quiet s (m s)
      → ((a : A) (u : State) → Quiet u (k a u))
      → Quiet s ((m >>= k) s)
  Quiet->>= m k s (made, h) later = elim (Result-cases (m s).0) [
    | inl (a, done) ↦ rw (>>=-ok m k s done) (
        let (after, h') = later a (m s).1 in
        (after ++ made, Adds-trans made after s (m s).1 (k a (m s).1).1 h h'))
    | inr (e, thrown) ↦ rw (>>=-err m k s thrown) (made, h)
  ]

  Quiet-catch :
      {A : Type 0} (m : Action A) (k : Error → Action A) (s : State)
      → Quiet s (m s)
      → ((e : Error) (u : State) → Quiet u (k e u))
      → Quiet s (catch m k s)
  Quiet-catch m k s (made, h) later = elim (Result-cases (m s).0) [
    | inl (a, done) ↦ rw (catch-ok m k s done) (made, h)
    | inr (e, thrown) ↦ rw (catch-err m k s thrown) (
        let (after, h') = later e (m s).1 in
        (after ++ made, Adds-trans made after s (m s).1 (k e (m s).1).1 h h'))
  ]

  Quiet-respond : {A : Type 0} (f : ℕ → Result A) (s : State) → Quiet s (respond f s)
  Quiet-respond f s = ([], (refl, refl))

  Quiet-send :
      {A : Type 0} (c : Call) (f : ℕ → Result A) (s : State)
      → is_announcement c ≡ false
      → Quiet s (send c f s)
  Quiet-send c f s h = (c ∷ [], (rw h refl, refl))

  Quiet-ensure_namespace : (name : String) (s : State) → Quiet s (ensure_namespace name s)
  unfolding ensure_namespace
  Quiet-ensure_namespace name s =
      Quiet-catch (respond (λ n. env.read_namespace n name))
        (λ _. send (Call.create_app_namespace name) env.create_app_namespace) s
        (Quiet-respond (λ n. env.read_namespace n name) s)
        (λ _ u. Quiet-send (Call.create_app_namespace name) env.create_app_namespace u refl)

  Quiet-upsert_deployment : (d : AppDeployment) (s : State) → Quiet s (upsert_deployment d s)
  unfolding upsert_deployment
  Quiet-upsert_deployment d s =
      let read : Action (Option AppDeployment) =
        respond (λ n. env.read_deployment n d.name d.namespace) in
      let replace : Action (Unit {0}) = send (Call.replace_deployment d) env.replace_deployment in
      Quiet-catch (read >>= λ _. replace)
        (λ _. send (Call.create_deployment d) env.create_deployment) s
        (Quiet->>= read (λ _. replace) s
          (Quiet-respond (λ n. env.read_deployment n d.name d.namespace) s)
          (λ _ u. Quiet-send (Call.replace_deployment d) env.replace_deployment u refl))
        (λ _ u. Quiet-send (Call.create_deployment d) env.create_deployment u refl)

  Quiet-upsert_service : (w : AppService) (s : State) → Quiet s (upsert_service w s)
  unfolding upsert_service
  Quiet-upsert_service w s =
      let read : Action (Unit {0}) = respond (λ n. env.read_service n w.name w.namespace) in
      let replace : Action (Unit {0}) = send (Call.replace_service w) env.replace_service in
      Quiet-catch (read >>= λ _. replace) (λ _. send (Call.create_service w) env.create_service) s
        (Quiet->>= read (λ _. replace) s
          (Quiet-respond (λ n. env.read_service n w.name w.namespace) s)
          (λ _ u. Quiet-send (Call.replace_service w) env.replace_service u refl))
        (λ _ u. Quiet-send (Call.create_service w) env.create_service u refl)

  Quiet-when : (b : Bool) (m : Action (Unit {0})) (s : State) → Quiet s (m s) → Quiet s (when b m s)
  Quiet-when true m s h = h
  Quiet-when false m s h = ([], (refl, refl))

  Quiet-update_routing : (h : Hierarchy) (s : State) → Quiet s (update_routing h s)
  unfolding update_routing
  Quiet-update_routing h s =
      let put =
        Call.put_route (h.app_slug ⧺ ".absolo.app")
          ("http://" ⧺ label_of h.app_id ⧺ "." ⧺ namespace_of h ⧺ ".svc.cluster.local:80") in
      Quiet-when env.has_routes (send put env.put_route) s (Quiet-send put env.put_route s refl)

  pub Quiet-apply_release :
      (h : Hierarchy) (release : String) (payload : DeploymentPayload) (s : State)
      → Quiet s (apply_release h release payload s)
  unfolding apply_release
  Quiet-apply_release h release payload s =
      let d = deployment_of h release payload in
      let w = service_of h release in
      let third : Action (Unit {0}) = upsert_service w >> update_routing h in
      let second : Action (Unit {0}) = upsert_deployment d >> third in
      Quiet->>= (ensure_namespace (namespace_of h)) (λ _. second) s
        (Quiet-ensure_namespace (namespace_of h) s)
        (λ _ u.
          Quiet->>= (upsert_deployment d) (λ _. third) u (Quiet-upsert_deployment d u)
            (λ _ u'.
              Quiet->>= (upsert_service w) (λ _. update_routing h) u' (Quiet-upsert_service w u')
                (λ _ x. Quiet-update_routing h x)))

  -- What a call leaves that returns only with the service pointed to the release.
  abbrev Reached : AppService → State → Result (Unit {0}) × State → Type 0
  Reached v s o = (o.0 ≡ ok tt) → (made : List Call) × Pointed v made × Adds made s o.1

  upsert_service-points : (v : AppService) (s : State) → Reached v s (upsert_service v s)
  unfolding upsert_service
  upsert_service-points v s =
      let replace = Call.replace_service v in
      let create = Call.create_service v in
      let read : Action (Unit {0}) = respond (λ n. env.read_service n v.name v.namespace) in
      let replaces : Action (Unit {0}) = send replace env.replace_service in
      let creates : Error → Action (Unit {0}) = λ _. send create env.create_service in
      let block : Action (Unit {0}) = read >>= λ _. replaces in
      elim (Result-cases (env.read_service s.tick v.name v.namespace)) [
        | inr (e, missing) ↦
            let step = >>=-err read (λ _. replaces) s missing in
            subst (Reached v s)
              (sym (
                catch-err block creates s (ap (λ o. o.0) step)
                ∙ ap (λ u. creates e u) (ap (λ o. o.1) step)))
              (λ done.
                (create ∷ [], ([], create, [], refl, inr (refl, s.tick + 1, done)), (refl, refl)))
        | inl (a, found) ↦
            let step = >>=-ok read (λ _. replaces) s found in
            elim (Result-cases (env.replace_service (s.tick + 1))) [
              | inl (b, replaced) ↦
                  subst (Reached v s)
                    (sym (
                      catch-ok block creates s (ap (λ o. o.0) step ∙ replaced)
                      ∙ ap (λ u. pure b u) (ap (λ o. o.1) step)))
                    (λ done. (
                      replace ∷ [],
                      ([], replace, [], refl, inl (refl, s.tick + 1, replaced)),
                      (refl, refl),
                    ))
              | inr (e, thrown) ↦
                  subst (Reached v s)
                    (sym (
                      catch-err block creates s (ap (λ o. o.0) step ∙ thrown)
                      ∙ ap (λ u. creates e u) (ap (λ o. o.1) step)))
                    (λ done. (
                      create ∷ replace ∷ [],
                      ([], create, replace ∷ [], refl, inr (refl, s.tick + 1 + 1, done)),
                      (refl, refl),
                    ))
            ]
      ]

  -- A release that was applied has its service.
  pub apply_release-points :
      (h : Hierarchy) (release : String) (payload : DeploymentPayload) (s : State)
      → Reached (service_of h release) s (apply_release h release payload s)
  unfolding apply_release
  apply_release-points h release payload s done =
      let d = deployment_of h release payload in
      let w = service_of h release in
      let third : Action (Unit {0}) = upsert_service w >> update_routing h in
      let second : Action (Unit {0}) = upsert_deployment d >> third in
      let u = (ensure_namespace (namespace_of h) s).1 in
      let x = (upsert_deployment d u).1 in
      let y = (upsert_service w x).1 in
      let z = (update_routing h y).1 in
      let (_, _, second_done, first_state) =
        >>=-eq-ok (ensure_namespace (namespace_of h)) (λ _. second) s done in
      let (_, _, third_done, second_state) =
        >>=-eq-ok (upsert_deployment d) (λ _. third) u second_done in
      let (_, service_done, _, third_state) =
        >>=-eq-ok (upsert_service w) (λ _. update_routing h) x third_done in
      let (m1, h1) = Quiet-ensure_namespace (namespace_of h) s in
      let (m2, h2) = Quiet-upsert_deployment d u in
      let (m3, pointed, h3) = upsert_service-points w x service_done in
      let (m4, h4) = Quiet-update_routing h y in
      let before = Adds-trans m1 m2 s u x h1 h2 in
      let since = Adds-trans (m2 ++ m1) m3 s x y before h3 in
      let all = Adds-trans (m3 ++ (m2 ++ m1)) m4 s y z since h4 in
      (
        m4 ++ (m3 ++ (m2 ++ m1)),
        Pointed-later w m4 (m3 ++ (m2 ++ m1)) (Pointed-earlier w m3 (m2 ++ m1) pointed),
        subst (Adds (m4 ++ (m3 ++ (m2 ++ m1))) s) (sym (first_state ∙ second_state ∙ third_state))
            all,
      )
