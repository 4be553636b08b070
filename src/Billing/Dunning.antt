-- ===== src/Billing/Dunning.antt =====
-- Payment failures escalate: `DUNNING_SCHEDULE`, `advanceDunning` and `clearDunning` of
-- services/control-plane/src/modules/billing/billing.service.ts.
pub mod Levels
pub mod History
use absolo_cloud_services.Base.{
  ℕ, ◌+◌, ◌*◌, String, ◌==◌, nat_eq, Option, none, some, List, [], ◌∷◌, find,
}
use absolo_cloud_services.Runtime.Env.{Env}
use absolo_cloud_services.Runtime.Action.{
  Action, pure, ◌>>=◌, ◌>>◌, now, select_first, insert, update,
}
use absolo_cloud_services.Runtime.Tables.Billing.{dunning_state}
use absolo_cloud_services.Schema.Billing.{Dunning}

pub data DunningAction : Type 0 where
  retry email_warning suspend_nonprod suspend_all cancel_final : DunningAction

pub record ScheduleEntry : Type 0 where
  pub level : ℕ
  pub delay_days : ℕ
  pub action : DunningAction

-- What `advanceDunning` returns.
pub record Advance : Type 0 where
  pub level : ℕ
  pub action : DunningAction
  pub next_attempt_at : ℕ

abbrev entry : ℕ → ℕ → DunningAction → ScheduleEntry
entry level days action = record { level = level; delay_days = days; action = action }

abbrev pub dunning_schedule : List ScheduleEntry
dunning_schedule =
    entry 1 3 retry
    ∷ entry 2 5 email_warning
    ∷ entry 3 7 suspend_nonprod
    ∷ entry 4 10 suspend_all
    ∷ entry 5 14 cancel_final
    ∷ []

abbrev pub next_level : Option Dunning → ℕ
next_level none = 1
next_level (some state) = state.level + 1

abbrev pub day_ms : ℕ
day_ms = 24 * 60 * 60 * 1000

abbrev pub advance : ℕ → ℕ → ScheduleEntry → Advance
advance level at e = record {
  level = level;
  action = e.action;
  next_attempt_at = at + e.delay_days * day_ms;
}

-- `DUNNING_SCHEDULE.find((s) => s.level === newLevel)`
scheduled : ℕ → Option ScheduleEntry
scheduled new_level = find (λ e. nat_eq e.level new_level) dunning_schedule

module _ ⦃env : Env⦄ where
  -- The row is changed if there is one, and inserted otherwise.
  record_attempt : String → Option Dunning → ℕ → ℕ → ℕ → Action (Unit {0})
  record_attempt org_id (some _) new_level at next_attempt =
      update dunning_state (λ r. r.org_id == org_id)
        (λ r. record r {
          level = new_level;
          last_attempt_at = some at;
          next_attempt_at = some next_attempt;
          updated_at = at;
        })
  record_attempt org_id none new_level at next_attempt = do
    default_updated ← now
    insert dunning_state (record {
      org_id = org_id;
      level = new_level;
      last_attempt_at = some at;
      next_attempt_at = some next_attempt;
      resolved_at = none;
      updated_at = default_updated;
    })

  escalate : String → Option Dunning → ℕ → Option ScheduleEntry → Action (Option Advance)
  escalate org_id state at none = pure none
  escalate org_id state at (some schedule) = do
    record_attempt org_id state (next_level state) at (at + schedule.delay_days * day_ms)
    pure (some (advance (next_level state) at schedule))

  unfoldable pub advance_dunning : String → Action (Option Advance)
  unfolding scheduled escalate record_attempt
  advance_dunning org_id = do
    state ← select_first dunning_state (λ r. r.org_id == org_id)
    at ← now
    escalate org_id state at (scheduled (next_level state))

  unfoldable pub clear_dunning : String → Action (Unit {0})
  clear_dunning org_id = do
    resolved ← now
    updated ← now
    update dunning_state (λ r. r.org_id == org_id)
        (λ r. record r { level = 0; resolved_at = some resolved; updated_at = updated })
