-- ===== src/Compaction/Policy.antt =====
-- compaction.rs: the automatic-compaction policy.
use pi_agent_core_rs.Prelude.{
  ℕ, ◌-◌, Bool, true, false, Option, none, some, ◌==◌, leb, if◌then◌else◌,
}

pub data AutomaticCompactionReason : Type 0 where
  threshold overflow : AutomaticCompactionReason

-- The capacities are `NonZeroU64`.
pub data ContextBudgetSource : Type 0 where
  context_window context_budget : ℕ → ContextBudgetSource

abbrev pub tokens : ContextBudgetSource → ℕ
tokens (context_window n) = n
tokens (context_budget n) = n

pub data OverflowRecovery : Type 0 where
  disabled compact_and_retry : OverflowRecovery

pub record AutomaticCompactionPolicy : Type 0 where
  pub enabled : Bool
  pub budget : ContextBudgetSource
  pub reserved_tokens : ℕ
  pub recent_tokens : ℕ
  pub overflow_recovery : OverflowRecovery
  pub max_compactions_per_run : ℕ
  pub max_overflow_retries_per_run : ℕ

-- `AutomaticCompactionPolicy::disabled`.
abbrev pub disabled_policy : AutomaticCompactionPolicy
disabled_policy = record {
  enabled = false;
  budget = context_budget 1;
  reserved_tokens = 0;
  recent_tokens = 0;
  overflow_recovery = disabled;
  max_compactions_per_run = 0;
  max_overflow_retries_per_run = 0;
}

pub data PolicyError : Type 0 where
  reserve_too_large no_compactions no_retries : PolicyError

abbrev pub retries_overflow : OverflowRecovery → Bool
retries_overflow disabled = false
retries_overflow compact_and_retry = true

-- `AutomaticCompactionPolicy::validate`; `none` is `Ok(())`.
unfoldable pub validate_policy : AutomaticCompactionPolicy → Option PolicyError
validate_policy p =
    if p.enabled
    then if leb (tokens p.budget) p.reserved_tokens
      then some reserve_too_large
      else if p.max_compactions_per_run == 0
      then some no_compactions
      else if retries_overflow p.overflow_recovery
      then if p.max_overflow_retries_per_run == 0 then some no_retries else none
      else none
    else none

-- `AutomaticCompactionPolicy::threshold_tokens`.
unfoldable pub threshold_tokens : AutomaticCompactionPolicy → ℕ
threshold_tokens p = tokens p.budget - p.reserved_tokens
