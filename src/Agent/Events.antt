-- ===== src/Agent/Events.antt =====
-- event.rs: the events of a run, with the results and updates of tool.rs that they carry.
use pi_agent_core_rs.Prelude.{ℕ, Bool, List, Option, Text}
use pi_agent_core_rs.Tool.Failure.{ToolFailureDisposition, ToolFailure}
use pi_agent_core_rs.State.Types.{Usage, ModelTurnAccounting, StopReason, AgentMessage}
use pi_agent_core_rs.Compaction.Policy.{AutomaticCompactionReason}

pub record AgentToolResult : Type 0 where
  pub tool_call_id : Text
  pub content : Text
  pub details : Option Text
  pub usage : Option Usage
  pub added_tool_names : List Text
  pub terminate : Bool
  pub is_error : Bool
  pub failure : Option ToolFailure

pub record ToolUpdate : Type 0 where
  pub content : Text
  pub details : Option Text

pub data CompactionOutcome : Type 0 where
  succeeded : (retained_message_count : ℕ) → CompactionOutcome
  failed : (message : Text) → CompactionOutcome
  cancelled : CompactionOutcome

pub data AutomaticCompactionOutcome : Type 0 where
  succeeded : (estimated_tokens_after : Option ℕ) → AutomaticCompactionOutcome
  failed : (message : Text) → AutomaticCompactionOutcome
  cancelled limit_reached still_above_threshold unavailable : AutomaticCompactionOutcome

pub data ProviderRequestSkipReason : Type 0 where
  automatic_compaction tool_circuit_breaker : ProviderRequestSkipReason

pub data AgentEventKind : Type 0 where
  compaction_start : (source_message_count : ℕ) → AgentEventKind
  compaction_result : (retained_message_count : ℕ) → Option Usage → AgentEventKind
  compaction_end : CompactionOutcome → AgentEventKind
  automatic_compaction_start :
      AutomaticCompactionReason
      → (source_message_count : ℕ) → (estimated_tokens_before : Option ℕ)
      → (retry_provider_request : Bool) → (count : ℕ) → AgentEventKind
  automatic_compaction_end :
      AutomaticCompactionReason
      → (retry_provider_request : Bool) → AutomaticCompactionOutcome
      → AgentEventKind
  context_estimate :
      (estimated_context_tokens : Option ℕ)
      → (input_bytes message_count message_bytes tool_result_bytes : ℕ) → AgentEventKind
  provider_request_skipped : ProviderRequestSkipReason → AgentEventKind
  agent_start : AgentEventKind
  turn_start : (turn_id : ℕ) → AgentEventKind
  message_start : AgentMessage → AgentEventKind
  message_update : AgentMessage → (text_delta : Option Text) → AgentEventKind
  message_end : AgentMessage → AgentEventKind
  tool_execution_start : (tool_call_id tool_name arguments : Text) → AgentEventKind
  tool_execution_update : (tool_call_id tool_name : Text) → ToolUpdate → AgentEventKind
  tool_execution_end : (tool_call_id tool_name : Text) → AgentToolResult → AgentEventKind
  tool_failure_observed :
      (tool_call_id : Text)
      → ToolFailureDisposition
      → (signature : Option Text) → (consecutive_count : ℕ) → (terminal : Bool) → (message : Text)
      → AgentEventKind
  turn_end : (turn_id : ℕ) → StopReason → AgentEventKind
  model_turn_usage : ModelTurnAccounting → AgentEventKind
  agent_end : List AgentMessage → AgentEventKind

pub record AgentEvent : Type 0 where
  pub run_id : ℕ
  pub sequence : ℕ
  pub kind : AgentEventKind
