-- ===== src/Billing/Dunning/Levels.antt =====
-- The level of an organization through `advanceDunning` and `clearDunning` of
-- services/control-plane/src/modules/billing/billing.service.ts.
use native.Mathlib.Nat.{le_trans}
use absolo_cloud_services.Base.{
  ℕ, zero, suc, ◌⊎◌, ◌+◌, ◌*◌, ◌≤◌, ◌<◌, ◌≡◌, refl, ◌∙◌, inl, inr, String, true, ◌&&◌, not, ◌==◌,
  nat_eq, eq_comm, Option, none, some, count, arith, Option-cases, Bool-cases, if◌then◌else◌, ltb,
  count_congr, count-false, count_mono, head?, filter, get_elem?, head?-filter-none,
  head?-filter-count, count_pos_of_head?, eq_refl, and_left, count_none,
}
use absolo_cloud_services.Result.{ok}
use absolo_cloud_services.Runtime.Env.{Env}
use absolo_cloud_services.Runtime.Action.{in_table, ◌>>=◌}
use absolo_cloud_services.Runtime.Laws.{count-insert_done, insert-eq-ok}
use absolo_cloud_services.Runtime.State.{State}
use absolo_cloud_services.Runtime.Tables.Iam.{org_exists}
use absolo_cloud_services.Runtime.Tables.Billing.{dunning_state}
use absolo_cloud_services.Schema.Billing.{Dunning}
use absolo_cloud_services.Billing.Dunning.{
  advance, advance_dunning, clear_dunning, next_level, dunning_schedule, record_attempt, scheduled,
  escalate, Advance, day_ms, ScheduleEntry,
}

-- What an escalation to an entry of the schedule returns.
abbrev pub advance_to : ℕ → Option ScheduleEntry → Option Advance
advance_to at none = none
advance_to at (some e) = some (advance e.level at e)

-- One failure more, up to the last level.
abbrev pub escalated : ℕ → ℕ
escalated n = if ltb n 5 then n + 1 else n

module _ ⦃env : Env⦄ where
  -- Every row of the organization stands at level n, and there is one unless n is 0.
  pub record AtLevel (org_id : String) (n : ℕ) (s : State) : Type 0 where
    pub level_is :
        count (λ r. r.org_id == org_id && not (nat_eq r.level n)) (in_table dunning_state s) ≡ 0
    pub recorded : 0 < n → 1 ≤ count (λ r. r.org_id == org_id) (in_table dunning_state s)

  module _ (org_id : String) (n : ℕ) (s : State) (h : AtLevel org_id n s) where
    selected_level :
        {r : Dunning}
        → head? (filter (λ r. r.org_id == org_id) (in_table dunning_state s)) ≡ some r
        → r.level ≡ n
    selected_level {r} e = elim (Bool-cases (nat_eq r.level n)) [
      | inl same ↦ ground arith
      | inr other ↦ absurd (
          omega (
            arith,
            head?-filter-count (λ r. r.org_id == org_id) (λ r. not (nat_eq r.level n))
                (in_table dunning_state s) e (rw other),
            h.level_is,
          ))
    ]

    none_selected :
        head? (filter (λ r. r.org_id == org_id) (in_table dunning_state s)) ≡ none → n ≡ 0
    none_selected e = grind (
      arith,
      h.recorded,
      head?-filter-none (λ r. r.org_id == org_id) (in_table dunning_state s) e,
    )

  -- An update of the organization's rows that sets their level.
  update-AtLevel :
      (org_id : String) (m n : ℕ) (f : Dunning → Dunning) (s : State)
      → ((r : Dunning) → (f r).level ≡ n)
      → ((r : Dunning) → (f r).org_id ≡ r.org_id)
      → (0 < n → 1 ≤ count (λ r. r.org_id == org_id) (in_table dunning_state s))
      → AtLevel org_id n (record s {
        tick = m;
        dunning_state = env.update_where (λ r. r.org_id == org_id) f s.dunning_state;
      })
  update-AtLevel org_id m n f s level same here = record {
    level_is =
        env.count-update_where _ _ f s.dunning_state
        ∙ count-false _ _ (λ r. ground (arith, level r, same r));
    recorded = λ p.
        rw env.count-update_where
          (le_trans (here p) (count_mono _ _ (env.rows s.dunning_state) (λ r h. rw (h, same r) h)));
  }

  -- A successful payment takes the organization back to level 0.
  pub clear_dunning-AtLevel :
      (org_id : String) (s : State)
      → ((clear_dunning org_id s).0 ≡ ok tt) × AtLevel org_id 0 (clear_dunning org_id s).1
  unfolding clear_dunning
  clear_dunning-AtLevel org_id s =
      (refl, update-AtLevel org_id _ 0 _ s (λ _. refl) (λ _. refl) (λ p. absurd (omega arith)))

scheduled_lem : (n : ℕ) → scheduled (n + 1) ≡ get_elem? dunning_schedule n
unfolding scheduled
scheduled_lem zero = refl
scheduled_lem (suc zero) = refl
scheduled_lem (suc (suc zero)) = refl
scheduled_lem (suc (suc (suc zero))) = refl
scheduled_lem (suc (suc (suc (suc zero)))) = refl
scheduled_lem (suc (suc (suc (suc (suc n))))) = ground arith

scheduled_level :
    (n : ℕ) {e : ScheduleEntry}
    → get_elem? dunning_schedule n ≡ some e
    → (e.level ≡ n + 1) × (n < 5)
scheduled_level zero h = ground arith
scheduled_level (suc zero) h = ground arith
scheduled_level (suc (suc zero)) h = ground arith
scheduled_level (suc (suc (suc zero))) h = ground arith
scheduled_level (suc (suc (suc (suc zero)))) h = ground arith
scheduled_level (suc (suc (suc (suc (suc n))))) h = cc

unscheduled_level : (n : ℕ) → get_elem? dunning_schedule n ≡ none → 5 ≤ n
unscheduled_level zero h = cc
unscheduled_level (suc zero) h = cc
unscheduled_level (suc (suc zero)) h = cc
unscheduled_level (suc (suc (suc zero))) h = cc
unscheduled_level (suc (suc (suc (suc zero)))) h = cc
unscheduled_level (suc (suc (suc (suc (suc n))))) h = omega arith

module _ ⦃env : Env⦄ where
  -- Recording an attempt sets the level of the organization's row, or makes the row.
  record_attempt-AtLevel :
      (org_id : String) (n at later : ℕ) (s : State) (state : Option Dunning)
      → head? (filter (λ r. r.org_id == org_id) (in_table dunning_state s)) ≡ state
      → org_exists s org_id ≡ true
      → let (r, s') = record_attempt org_id state n at later s in (r ≡ ok tt) × AtLevel org_id n s'
  unfolding record_attempt
  record_attempt-AtLevel org_id n at later s (some r) e known = (
    refl,
    update-AtLevel org_id s.tick n _ s (λ _. refl) (λ _. refl)
        (λ _. count_pos_of_head? (λ r. r.org_id == org_id) (in_table dunning_state s) e),
  )
  record_attempt-AtLevel org_id n at later s none e known =
      let row : Dunning = record {
        org_id = org_id;
        level = n;
        last_attempt_at = some at;
        next_attempt_at = some later;
        resolved_at = none;
        updated_at = env.clock s.tick;
      } in
      let s' : State = record s { tick = s.tick + 1 } in
      let alone : count (λ r. org_id == r.org_id) (in_table dunning_state s) ≡ 0 =
        count_congr _ _ (in_table dunning_state s) (λ r. eq_comm org_id r.org_id)
        ∙ head?-filter-none (λ r. r.org_id == org_id) (in_table dunning_state s) e in
      let free : count (λ r. r.org_id == org_id) (in_table dunning_state s) ≡ 0 =
        head?-filter-none (λ r. r.org_id == org_id) (in_table dunning_state s) e in
      let done = insert-eq-ok dunning_state row s' known alone in
      (
        done,
        record {
          level_is =
              rw
                (
                  count-insert_done dunning_state _ row s' done,
                  eq_refl,
                  count_none _ (λ r. r.org_id == org_id) (in_table dunning_state s)
                      (λ r h. and_left _ _ h) free,
                )
                (ground arith);
          recorded = λ _. rw (count-insert_done dunning_state _ row s' done, eq_refl) (omega arith);
        },
      )

  escalate_lem :
      (org_id : String) (n at : ℕ) (s : State) (state : Option Dunning) (o : Option ScheduleEntry)
      → head? (filter (λ r. r.org_id == org_id) (in_table dunning_state s)) ≡ state
      → org_exists s org_id ≡ true
      → next_level state ≡ n + 1
      → get_elem? dunning_schedule n ≡ o
      → AtLevel org_id n s
      → let (r, s') = escalate org_id state at o s in
        (r ≡ ok (advance_to at o)) × AtLevel org_id (escalated n) s' × ((n < 5) ⊎ (s' ≡ s))
  unfolding escalate
  escalate_lem org_id n at s state none e known level found h =
      let same : escalated n ≡ n = ground (arith, unscheduled_level n found) in
      (refl, rw same h, inr refl)
  escalate_lem org_id n at s state (some entry) e known level found h =
      let (entry_level, below) = scheduled_level n found in
      let next : escalated n ≡ next_level state = ground arith in
      let (done, there) =
        record_attempt-AtLevel org_id (next_level state) at (at + entry.delay_days * day_ms) s state
          e known in
      (rw (done, ◌>>=◌, level, entry_level), rw (done, ◌>>=◌, next) there, inl below)

  module _ (org_id : String) (n : ℕ) (s : State) where
    pub advance_dunning_lem :
        n ≤ 5
        → org_exists s org_id ≡ true
        → AtLevel org_id n s
        → let (r, s') = advance_dunning org_id s in
          (r ≡ ok (advance_to (env.clock s.tick) (get_elem? dunning_schedule n)))
          × AtLevel org_id (escalated n) s'
          × ((n < 5) ⊎ (s' ≡ record s { tick = s.tick + 1 }))
    unfolding advance_dunning
    advance_dunning_lem le known h =
        rw (level, scheduled_lem)
          (escalate_lem org_id n (env.clock s.tick) (record s { tick = s.tick + 1 }) _ _ refl known
            level refl (record { level_is = h.level_is; recorded = h.recorded }))
      where
        level :
            next_level (head? (filter (λ r. r.org_id == org_id) (in_table dunning_state s))) ≡ n + 1
        level =
            elim (Option-cases
              (head? (filter (λ r. r.org_id == org_id) (in_table dunning_state s)))) [
                | inl e ↦ rw e (omega (arith, none_selected org_id n s h e))
                | inr (r, e) ↦ rw e (omega (arith, selected_level org_id n s h e))
              ]
