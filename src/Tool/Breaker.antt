-- ===== src/Tool/Breaker.antt =====
-- run/tool_execution.rs: the circuit breaker over the failures of tools, and the results of tools that
-- an agent builds or changes. The streak is the field of the run's policy state.
pub mod Streak
use pi_agent_core_rs.Prelude.{
  ℕ, Bool, true, false, not, ◌||◌, ◌&&◌, List, [], ◌∷◌, Option, none, some, Text, text_eq,
  sat_add32, leb, if◌then◌else◌, is_some,
}
use pi_agent_core_rs.Tool.Failure.{
  ToolFailureDisposition, cancelled, invalid_arguments, recoverable, retryable, fatal, ToolFailure,
  plain, ToolFailureCircuitBreaker,
}
use pi_agent_core_rs.Tool.Truncate.{truncate_middle}
use pi_agent_core_rs.Agent.Events.{AgentToolResult, AgentEventKind, tool_failure_observed}

-- The signature and the count of the consecutive failures.
abbrev pub Streak : Type 0
Streak = Option (Text × ℕ)

unfoldable pub normalize_result_failure : AgentToolResult → AgentToolResult
normalize_result_failure r =
    let failure =
      if r.is_error
      then if is_some r.failure then r.failure else some (plain recoverable)
      else none in
    record r { failure = failure }

-- The count of a retryable failure behind a streak.
next_count : Text → Streak → ℕ
next_count signature none = 1
next_count signature (some (previous, count)) =
    if text_eq previous signature then sat_add32 count 1 else 1

abbrev trips : Option ℕ → ℕ → Bool
trips none count = false
trips (some limit) count = leb limit count

-- The `match` on disposition and signature: the new streak, the count, and whether the run ends.
unfoldable pub count_failure :
    ToolFailureCircuitBreaker → ToolFailureDisposition → Option Text → Streak → Streak × (ℕ × Bool)
unfolding next_count
count_failure breaker retryable (some signature) streak =
    let count = next_count signature streak in
    (some (signature, count), (count, trips breaker.max_consecutive_retryable_failures count))
count_failure breaker fatal (some signature) streak = (some (signature, 1), (1, true))
count_failure breaker _ _ streak = (none, (0, false))

or_recoverable : Option ToolFailure → ToolFailure
or_recoverable none = plain recoverable
or_recoverable (some failure) = failure

is_observed : ToolFailureCircuitBreaker → ToolFailureDisposition → Bool
is_observed breaker retryable = true
is_observed breaker fatal = true
is_observed breaker _ = is_some breaker.max_consecutive_retryable_failures

or_content : Option Text → Text → Text
or_content none content = content
or_content (some guidance) content = guidance

-- What an observation leaves: the streak, the event that it emits, if any, and the message with which
-- the run ends, if it does.
pub record Observation : Type 0 where
  pub streak : Streak
  pub event : Option AgentEventKind
  pub terminal : Option Text

observe_error :
    ToolFailureCircuitBreaker
    → (call_id : Text) → AgentToolResult
    → ToolFailure
    → Streak
    → Observation
unfolding is_observed or_content
observe_error breaker call_id r failure streak =
    let (streak', (count, ends)) =
      count_failure breaker failure.disposition failure.signature streak in
    let message = truncate_middle (or_content failure.recovery_guidance r.content) 1024 in
    let event =
      tool_failure_observed call_id failure.disposition failure.signature count ends message in
    record {
      streak = streak';
      event = if is_observed breaker failure.disposition then some event else none;
      terminal = if ends then some message else none;
    }

-- `observe_tool_failure`, where the emission of the event succeeds.
unfoldable pub observe_tool_failure :
    ToolFailureCircuitBreaker
    → (is_cancelled : Bool) → (call_id : Text) → AgentToolResult
    → Streak
    → Observation
unfolding observe_error or_recoverable
observe_tool_failure breaker is_cancelled call_id r streak =
    let observed = observe_error breaker call_id r (or_recoverable r.failure) streak in
    if is_cancelled
    then record { streak = streak; event = none; terminal = none }
    else if not r.is_error
    then record { streak = none; event = none; terminal = none }
    else observed

-- The streak after the results of a run that is not cancelled; the newest result stands first.
unfoldable pub streak_after : ToolFailureCircuitBreaker → List AgentToolResult → Streak
streak_after breaker [] = none
streak_after breaker (r ∷ history) =
    (observe_tool_failure breaker false r.tool_call_id r (streak_after breaker history)).streak
