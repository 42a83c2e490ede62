-- ===== src/Turn/Host.antt =====
-- hooks.rs, error.rs and the traits of tool.rs: what a turn asks of its host. A call into the host
-- gives its result with the world that it leaves; the world also tells whether the run is cancelled
-- or was aborted by then. The tools, hooks and observers are parameters.
use pi_agent_core_rs.Prelude.{ℕ, Bool, false, none, List, Option, Text}
use pi_agent_core_rs.Tool.Failure.{
  ToolFailure, ToolFailureCircuitBreaker, ToolResultProjectionPolicy,
}
use pi_agent_core_rs.Compaction.Policy.{AutomaticCompactionReason, AutomaticCompactionPolicy}
use pi_agent_core_rs.Compaction.Split.{CompactionSplit}
use pi_agent_core_rs.State.Types.{Usage, ModelDescriptor, AgentMessage}
use pi_agent_core_rs.Agent.Events.{AgentToolResult, ToolUpdate, AgentEvent}
use pi_agent_core_rs.Agent.State.{CoreError, AgentState, RunState}
use pi_agent_core_rs.Scheduler.{ToolCall}
use pi_agent_core_rs.Tool.Registry.{AgentTool, ToolRegistry}
use pi_agent_core_rs.Tool.Breaker.{Streak}

-- error.rs.
pub data ToolError : Type 0 where
  invalid_arguments execution : (tool message : Text) → ToolError
  blocked : (tool reason : Text) → ToolError
  classified : (tool message : Text) → ToolFailure → ToolError
  cancelled : (tool : Text) → ToolError

-- hooks.rs.
pub data BeforeToolCall : Type 0 where
  allow : BeforeToolCall
  block terminate : (reason : Text) → BeforeToolCall

pub data Replacement {ℓ} (T : Type ℓ) : Type ℓ where
  keep : Replacement T
  replace : T → Replacement T

pub record AfterToolCall : Type 0 where
  pub content : Replacement Text
  pub details : Replacement (Option Text)
  pub is_error : Replacement Bool
  pub failure : Replacement (Option ToolFailure)
  pub usage : Replacement Usage
  pub added_tool_names : Replacement (List Text)
  pub terminate : Option Bool

pub record ContextEnvelope : Type 0 where
  pub version : ℕ
  pub messages : List AgentMessage
  pub host_messages : List Text

-- The result of a hook; its error is the message of the `HookError`.
pub data HookResult (A : Type 0) : Type 0 where
  accepted : A → HookResult A
  refused : (message : Text) → HookResult A

pub data ToolOutcome : Type 0 where
  returned : AgentToolResult → ToolOutcome
  threw : ToolError → ToolOutcome

-- The future of one tool, as its polls: what a poll does to the world, the updates that it pushes, and
-- whether it is ready. A pending future is polled again with the updates and the world of its wake.
pub data ToolFuture (W : Type 0) : Type 0 where
  ready : (polled : W → W) → List ToolUpdate → ToolOutcome → ToolFuture W
  pending :
      (polled : W → W)
      → List ToolUpdate
      → (woken : W → W) → List ToolUpdate
      → ToolFuture W
      → ToolFuture W

-- What the call of `execute` leaves: the updates that it pushed before it returned the future.
pub record StartedTool (W : Type 0) : Type 0 where
  pub future : ToolFuture W
  pub updates : List ToolUpdate
  pub world : W

-- compaction.rs: what a compactor is asked.
pub record ProviderContext (Json : Type 0) : Type 0 where
  pub system_prompt : Text
  pub context : Text
  pub active_context : Option Text
  pub tools : List (AgentTool Json)

pub record CompactionContext (Json : Type 0) : Type 0 where
  pub version : ℕ
  pub system_prompt : Text
  pub model : Option ModelDescriptor
  pub messages : List AgentMessage
  pub host_messages : List Text
  pub provider_context : Option (ProviderContext Json)

pub record AutomaticCompactionRequest : Type 0 where
  pub reason : AutomaticCompactionReason
  pub estimated_tokens_before : Option ℕ
  pub context_budget_tokens : ℕ
  pub reserved_tokens : ℕ
  pub recent_tokens : ℕ
  pub split : CompactionSplit
  pub retry_provider_request : Bool

pub record Host (W Json : Type 0) : Type 0 where
  pub tools : ToolRegistry Json
  pub breaker : ToolFailureCircuitBreaker
  pub is_cancelled : W → Bool
  pub is_aborted : W → Bool
  pub observe : AgentEvent → W → HookResult (Unit {0}) × W
  pub validate_tool_arguments : Text → Json → Text → Option ToolError
  pub before_tool_call : ToolCall → ContextEnvelope → W → HookResult BeforeToolCall × W
  pub after_tool_call :
      ToolCall → AgentToolResult → ContextEnvelope → W → HookResult AfterToolCall × W
  pub execute : AgentTool Json → ToolCall → W → StartedTool W
  pub system_prompt : Text
  pub projection : ToolResultProjectionPolicy
  pub transform_context : ContextEnvelope → W → HookResult ContextEnvelope × W
  pub convert_to_llm : ContextEnvelope → W → HookResult Text × W
  pub automatic_compaction : AutomaticCompactionPolicy
  pub compactor :
      Option (
        CompactionContext Json
        → AutomaticCompactionRequest
        → W
        → HookResult (List AgentMessage) × W)
  pub display : CoreError → Text

-- `RunPolicyState`, less the streak of failures.
pub record RunPolicyState : Type 0 where
  pub automatic_compactions : ℕ
  pub overflow_retries : ℕ
  pub overflow_retried_this_continuation : Bool
  pub compaction_blocked_message_count : Option ℕ
  pub compaction_cancelled : Bool

-- `RunPolicyState::default()`.
abbrev pub new_policy_state : RunPolicyState
new_policy_state = record {
  automatic_compactions = 0;
  overflow_retries = 0;
  overflow_retried_this_continuation = false;
  compaction_blocked_message_count = none;
  compaction_cancelled = false;
}

-- What a turn changes: the agent's state, the run's, the streak of its policy, and the world.
pub record Turn (W : Type 0) : Type 0 where
  pub state : AgentState
  pub run : RunState
  pub streak : Streak
  pub policy : RunPolicyState
  pub world : W
