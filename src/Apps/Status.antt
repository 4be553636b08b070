-- ===== src/Apps/Status.antt =====
-- What a report on a deployment changes, and what it announces.
use absolo_cloud_services.Base.{
  ℕ, ◌+◌, String, ◌⧺◌, ◌≡◌, refl, sym, ap, ◌∙◌, ◌⊎◌, inl, inr, Bool, ◌&&◌, Bool-cases, Option, none,
  some, is_some, true, false, eq_iff, or_default, given, ◌==◌, List, [], ◌∷◌, map, head?, filter,
  count, Option-cases, if◌then◌else◌, arith,
}
use absolo_cloud_services.Result.{Result, ok, err, Error, not_found, Result-cases}
use absolo_cloud_services.Runtime.Env.{Env}
use absolo_cloud_services.Runtime.State.{State}
use absolo_cloud_services.Runtime.Action.{Action, pure, ◌>>◌, when, in_table}
use absolo_cloud_services.Runtime.Laws.{
  count-update, >>=-eq-ok, or_throw-none, or_throw-some, transaction-ok, transaction-err,
}
use absolo_cloud_services.Schema.Mq.{OutboxEvent}
use absolo_cloud_services.Schema.Compute.{App, Deployment}
use absolo_cloud_services.Runtime.Tables.Compute.{apps, deployments, app_exists}
use absolo_cloud_services.Runtime.Tables.Mq.{outbox}
use absolo_cloud_services.Outbox.Counts.{count-publish, publish_frame}
use mathlib.Core.Path.{subst}
use absolo_cloud_services.Apps.{
  live_notice, announce, announce_live, report_status, update_deployment_status,
}

abbrev pub is_live_event : OutboxEvent → Bool
is_live_event v = v.topic == "deployment.live"

-- The first row that an update returns.
head?-updated :
    {A B : Type 0} (p : A → Bool) (f : A → B) (l : List A) {b : B}
    → head? (map f (filter p l)) ≡ some b
    → (a : A) × (p a ≡ true) × (b ≡ f a)
head?-updated p f [] e = cc
head?-updated p f (a ∷ l) {b} e = elim (Bool-cases (p a)) [
  | inl holds ↦ (
    a,
    holds,
    sym (
        ap (λ o. or_default o (f a))
          (ap (λ c. head? (map f (if c then a ∷ filter p l else filter p l))) (sym holds) ∙ e)),
  )
  | inr fails ↦
      head?-updated p f l {b = b}
        (ap (λ c. head? (map f (if c then a ∷ filter p l else filter p l))) (sym fails) ∙ e)
]

module _ ⦃env : Env⦄ where
  -- How many events an announcement adds.
  abbrev pub announced : State → String → Deployment → ℕ
  announced s status d = if status == "live" && app_exists s d.app_id then 1 else 0

  count-announce :
      (id : String) (o : Option App) (s : State)
      → (announce id o s).0 ≡ ok tt
      → count is_live_event (in_table outbox (announce id o s).1)
        ≡ count is_live_event (in_table outbox s) + (if is_some o then 1 else 0)
  unfolding announce
  count-announce id none s e = omega arith
  count-announce id (some app) s e = count-publish "deployment.live" (live_notice id app) s e

  count-announce_live :
      (id status : String) (d : Deployment) (s : State)
      → (announce_live id status d s).0 ≡ ok tt
      → count is_live_event (in_table outbox (announce_live id status d s).1)
        ≡ count is_live_event (in_table outbox s) + announced s status d
  unfolding announce_live
  count-announce_live id status d s e = elim (Bool-cases (status == "live")) [
    | inl live ↦ rw live (
        count-announce id (head? (filter (λ r. r.id == d.app_id) (in_table apps s))) s
          (rw live at e))
    | inr other ↦ rw other (omega arith)
  ]

  announce-deployments :
      (id : String) (o : Option App) (s : State) → (announce id o s).1.deployments ≡ s.deployments
  unfolding announce
  announce-deployments id none s = refl
  announce-deployments id (some app) s =
      publish_frame (λ u. u.deployments) (λ _ _ _. refl) "deployment.live" (live_notice id app) s

  announce_live-deployments :
      (id status : String) (d : Deployment) (s : State)
      → (announce_live id status d s).1.deployments ≡ s.deployments
  unfolding announce_live
  announce_live-deployments id status d s = go (status == "live")
    where
      go :
          (b : Bool)
          → (when b
              (announce id (head? (filter (λ r. r.id == d.app_id) (in_table apps s))))
              s).1.deployments
            ≡ s.deployments
      go true = announce-deployments id (head? (filter (λ r. r.id == d.app_id) (in_table apps s))) s
      go false = refl

  abbrev deployment_in : Deployment → Result Deployment → Deployment
  deployment_in d (ok r) = r
  deployment_in d (err e) = d

  -- The rest once the rows are changed.
  finish_report : String → String → Deployment → Action Deployment
  finish_report id status d = do announce_live id status d; pure d

  abbrev reported : String → Option String → Deployment → Deployment
  reported status url r = record r { status = status; build_log_url = given url r.build_log_url }

  abbrev after_update : String → String → Option String → State → State
  after_update id status url s = record s {
    deployments = env.update_where (λ r. r.id == id) (reported status url) s.deployments;
  }

  -- The row of a deployment after a report on the deployment of an id.
  abbrev pub after_report : String → String → Option String → Deployment → Deployment
  after_report id status url r = if r.id == id then reported status url r else r

  -- What a report that returned a deployment did.
  abbrev pub Reported : String → String → Option String → State → Deployment → State → Type 0
  Reported id status url s d s' =
      (d.id ≡ id)
      × (d.status ≡ status)
      × ((q : Deployment → Bool)
          → count q (in_table deployments s')
            ≡ count (λ r. q (after_report id status url r)) (in_table deployments s))
      × (count is_live_event (in_table outbox s')
          ≡ count is_live_event (in_table outbox s) + announced s status d)

  report_status-Reported :
      (id status : String) (url : Option String) (s : State) {d : Deployment}
      → (report_status id status url s).0 ≡ ok d
      → Reported id status url s d (report_status id status url s).1
  unfolding report_status finish_report
  report_status-Reported id status url s {d} e =
      let rows = map (reported status url) (filter (λ r. r.id == id) (in_table deployments s)) in
      let u = after_update id status url s in
      let nf = not_found ("Deployment " ⧺ id ⧺ " not found") in
      elim (Option-cases (head? rows)) [
        | inl missing ↦ cc (
            sym (ap (λ o. o.0) (or_throw-none nf (head? rows) (finish_report id status) u missing))
            ∙ e)
        | inr (d', found) ↦
            let same = or_throw-some nf (head? rows) (finish_report id status) u found in
            let (r, has_id, is_row) =
              head?-updated (λ r. r.id == id) (reported status url) (in_table deployments s)
                {b = d'} found in
            let (x, done, returned, state) =
              >>=-eq-ok (announce_live id status d') (λ _. pure d') u
                (sym (ap (λ o. o.0) same) ∙ e) in
            let is_d : d' ≡ d = ap (deployment_in d') returned in
            let final = ap (λ o. o.1) same ∙ state in
            rw (sym is_d) (
              ap (λ d. d.id) is_row ∙ (eq_iff r.id id).0 has_id,
              ap (λ d. d.status) is_row,
              λ q.
                  ap (λ v. count q (in_table deployments v)) final
                  ∙ ap (λ v. count q (env.rows v)) (announce_live-deployments id status d' u)
                  ∙ count-update deployments q (λ r. r.id == id) (reported status url) s,
              ap (λ v. count is_live_event (in_table outbox v)) final
                  ∙ count-announce_live id status d' u done,
            )
      ]

  -- A report that throws changes no deployment and no event. One that returns a deployment returns
  -- that of the id with the status set; in the table of deployments the rows of the id, and no
  -- others, have the status and, where one was given, the log's URL; and one event that it is live
  -- was published just where the status is live and its app exists.
  pub update_deployment_status_announces :
      (id status : String) (url : Option String) (s : State)
      → let (r, s') = update_deployment_status id status url s in
        ((e : Error) × (r ≡ err e) × (s'.deployments ≡ s.deployments) × (s'.outbox ≡ s.outbox))
        ⊎ ((d : Deployment) × (r ≡ ok d) × Reported id status url s d s')
  unfolding update_deployment_status
  update_deployment_status_announces id status url s =
      elim (Result-cases (report_status id status url s).0) [
        | inl (d, done) ↦
            let same = transaction-ok (report_status id status url) s done in
            inr (
              d,
              ap (λ o. o.0) same,
              subst (λ o. Reported id status url s d o.1) (sym same)
                  (report_status-Reported id status url s {d = d} done),
            )
        | inr (e, thrown) ↦
            let same = transaction-err (report_status id status url) s thrown in
            inl (e, ap (λ o. o.0) same, ap (λ o. o.1.deployments) same, ap (λ o. o.1.outbox) same)
      ]
