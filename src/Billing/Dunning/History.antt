-- ===== src/Billing/Dunning/History.antt =====
-- Dunning over a sequence of calls of `advanceDunning` and `clearDunning` of
-- services/control-plane/src/modules/billing/billing.service.ts, each for one organization. The
-- calls alone: `handleInvoicePaid` stores the invoice before it clears, which may throw.
use absolo_cloud_services.Runtime.Tables.Checks.{found}
use absolo_cloud_services.Base.{
  ap, ◌==◌, [], ◌≤◌, ℕ, ◌+◌, ◌≤◌, ◌≡◌, refl, ◌∙◌, String, true, Option, none, some, List, [], ◌∷◌,
  arith,
}
use absolo_cloud_services.Result.{ok}
use absolo_cloud_services.Runtime.Env.{Env}
use absolo_cloud_services.Runtime.State.{State}
use absolo_cloud_services.Runtime.Action.{Action, pure, ◌>>=◌, ◌>>◌}
use absolo_cloud_services.Runtime.Laws.{insert_frame, >>=-ok, >>=_frame}
use absolo_cloud_services.Runtime.Tables.Iam.{org_exists}
use absolo_cloud_services.Runtime.Tables.Billing.{dunning_state}
use absolo_cloud_services.Schema.Billing.{Dunning}
use absolo_cloud_services.Billing.Dunning.{
  advance, advance_dunning, clear_dunning, record_attempt, escalate, ScheduleEntry, next_level,
}
use absolo_cloud_services.Billing.Dunning.Levels.{
  AtLevel, escalated, advance_dunning_lem, clear_dunning-AtLevel,
}

module _ ⦃env : Env⦄ where
  -- What reads neither the clock nor the dunning table does not see an escalation.
  module _ {A : Type 0} (f : State → A)
      (blind : (m : ℕ) (v : env.Table Dunning) (u : State)
        → f (record u { tick = m; dunning_state = v }) ≡ f u) where
    record_attempt_frame :
        (org_id : String) (state : Option Dunning) (n at later : ℕ) (s : State)
        → f (record_attempt org_id state n at later s).1 ≡ f s
    unfolding record_attempt
    record_attempt_frame org_id none n at later s =
        insert_frame dunning_state f _ (record s { tick = s.tick + 1 }) (λ v u. blind u.tick v u)
        ∙ blind (s.tick + 1) s.dunning_state s
    record_attempt_frame org_id (some _) n at later s = blind s.tick _ s

    escalate_frame :
        (org_id : String) (state : Option Dunning) (at : ℕ) (o : Option ScheduleEntry) (s : State)
        → f (escalate org_id state at o s).1 ≡ f s
    unfolding escalate
    escalate_frame org_id state at none s = refl
    escalate_frame org_id state at (some e) s =
        >>=_frame f (record_attempt org_id state (next_level state) at _)
          (λ _. pure (some (advance (next_level state) at e))) s
          (record_attempt_frame org_id state (next_level state) at _ s) (λ _ _. refl)

    pub advance_dunning_frame : (org_id : String) (s : State) → f (advance_dunning org_id s).1 ≡ f s
    unfolding advance_dunning
    advance_dunning_frame org_id s =
        escalate_frame org_id _ _ _ (record s { tick = s.tick + 1 })
        ∙ blind (s.tick + 1) s.dunning_state s

    pub clear_dunning_frame : (org_id : String) (s : State) → f (clear_dunning org_id s).1 ≡ f s
    unfolding clear_dunning
    clear_dunning_frame org_id s = blind _ _ s

-- What a call of dunning follows: a failed payment advances it, a paid invoice clears it.
pub data Payment : Type 0 where
  failed paid : Payment

-- The advances since the last clearing, up to the length of the schedule.
abbrev pub level_after : ℕ → List Payment → ℕ
level_after n [] = n
level_after n (failed ∷ l) = level_after (escalated n) l
level_after n (paid ∷ l) = level_after 0 l

module _ ⦃env : Env⦄ where
  pub payment : String → Payment → Action (Unit {0})
  payment org_id failed = do advance_dunning org_id; pure tt
  payment org_id paid = clear_dunning org_id

  pub payments : String → List Payment → Action (Unit {0})
  payments org_id [] = pure tt
  payments org_id (p ∷ l) = payment org_id p >> payments org_id l

  payment-AtLevel :
      (org_id : String) (n : ℕ) (p : Payment) (s : State)
      → n ≤ 5
      → org_exists s org_id ≡ true
      → AtLevel org_id n s
      → let (r, s') = payment org_id p s in
        (r ≡ ok tt)
        × (s'.organizations ≡ s.organizations)
        × AtLevel org_id (level_after n (p ∷ [])) s'
  unfolding payment
  payment-AtLevel org_id n failed s le known h =
      let (done, there, _) = advance_dunning_lem org_id n s le known h in
      (
        rw (done, ◌>>=◌),
        rw (done, ◌>>=◌) (advance_dunning_frame (λ u. u.organizations) (λ _ _ _. refl) org_id s),
        rw (done, ◌>>=◌) there,
      )
  payment-AtLevel org_id n paid s le known h =
      let (done, there) = clear_dunning-AtLevel org_id s in
      (done, clear_dunning_frame (λ u. u.organizations) (λ _ _ _. refl) org_id s, there)

  level_after-le : (n : ℕ) (p : Payment) → n ≤ 5 → level_after n (p ∷ []) ≤ 5
  level_after-le n failed le = ground arith
  level_after-le n paid le = omega arith

  level_after-cons :
      (n : ℕ) (p : Payment) (l : List Payment)
      → level_after n (p ∷ l) ≡ level_after (level_after n (p ∷ [])) l
  level_after-cons n failed l = refl
  level_after-cons n paid l = refl

  -- After any sequence of calls that advance or clear the dunning of an organization that exists,
  -- no call has thrown and the organization stands at the level that counts the advances since the
  -- last clearing, at most 5.
  pub payments-AtLevel :
      (org_id : String) (n : ℕ) (l : List Payment) (s : State)
      → n ≤ 5
      → org_exists s org_id ≡ true
      → AtLevel org_id n s
      → let (r, s') = payments org_id l s in
        (r ≡ ok tt) × (level_after n l ≤ 5) × AtLevel org_id (level_after n l) s'
  unfolding payments
  payments-AtLevel org_id n [] s le known h = (refl, le, h)
  payments-AtLevel org_id n (p ∷ l) s le known h =
      let (done, same, there) = payment-AtLevel org_id n p s le known h in
      let still : org_exists (payment org_id p s).1 org_id ≡ true =
        ap (λ o. found (λ r. r.id == org_id) (env.rows o)) same ∙ known in
      rw (>>=-ok (payment org_id p) (λ _. payments org_id l) s done, level_after-cons n p l)
        (payments-AtLevel org_id (level_after n (p ∷ [])) l (payment org_id p s).1
          (level_after-le n p le) still there)
