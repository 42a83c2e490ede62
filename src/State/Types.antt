-- ===== src/State/Types.antt =====
-- state/identifiers.rs, state/messages.rs and the types of state/accounting.rs and state/lifecycle.rs.
-- The identifiers `MessageId`, `RunId` and `TurnId` are their numbers, `ToolCallId` and
-- `SerializedJson` their texts.
use pi_agent_core_rs.Prelude.{
  ℕ, Bool, true, false, List, Option, none, some, Text, is_empty, if◌then◌else◌,
}
use pi_agent_core_rs.Tool.Failure.{ToolFailure}

-- `ToolCallId::new`; an empty text is refused.
unfoldable pub new_tool_call_id : Text → Option Text
new_tool_call_id value = if is_empty value then none else some value

pub data ThinkingLevel : Type 0 where
  off minimal low medium high x_high max_level : ThinkingLevel

pub record ModelDescriptor : Type 0 where
  pub provider : Text
  pub model : Text
  pub revision : Option Text

-- accounting.rs: `Usage`; a cost is the provider's decimal text.
pub record Usage : Type 0 where
  pub input_tokens : Option ℕ
  pub output_tokens : Option ℕ
  pub reasoning_tokens : Option ℕ
  pub cache_read_tokens : Option ℕ
  pub cache_write_tokens : Option ℕ
  pub cost : Option Text

-- `Usage::default()`.
abbrev pub no_usage : Usage
no_usage = record {
  input_tokens = none;
  output_tokens = none;
  reasoning_tokens = none;
  cache_read_tokens = none;
  cache_write_tokens = none;
  cost = none;
}

pub record ModelTurnAccounting : Type 0 where
  pub run_id : ℕ
  pub turn_id : ℕ
  pub model : Option ModelDescriptor
  pub usage : Usage

pub record ModelAccountingSnapshot : Type 0 where
  pub turns : List ModelTurnAccounting
  pub aggregate : Usage

-- lifecycle.rs.
pub data StopReason : Type 0 where
  stop tool_use length_limit aborted cancelled error : StopReason

pub data AgentPhase : Type 0 where
  idle : AgentPhase
  running cancelling : (run_id : ℕ) → AgentPhase

pub data RunPhase : Type 0 where
  created running settling succeeded failed cancelled : RunPhase

-- `RunPhase::is_terminal`.
abbrev pub is_terminal : RunPhase → Bool
is_terminal RunPhase.succeeded = true
is_terminal RunPhase.failed = true
is_terminal RunPhase.cancelled = true
is_terminal _ = false

-- messages.rs.
pub record AgentToolCall : Type 0 where
  pub id : Text
  pub name : Text
  pub arguments : Text

-- The fields of `AgentMessage::ToolResult`.
pub record ToolResultMessage : Type 0 where
  pub id : ℕ
  pub tool_call_id : Text
  pub tool_name : Text
  pub content : Text
  pub details : Option Text
  pub usage : Option Usage
  pub added_tool_names : List Text
  pub terminate : Bool
  pub is_error : Bool
  pub failure : Option ToolFailure

-- The fields of `AgentMessage::Assistant`.
pub record AssistantMessage : Type 0 where
  pub id : ℕ
  pub content : Text
  pub tool_calls : List AgentToolCall
  pub stop_reason : Option StopReason
  pub error_message : Option Text

pub data AgentMessage : Type 0 where
  user : (id : ℕ) (content : Text) → AgentMessage
  assistant : AssistantMessage → AgentMessage
  tool_result : ToolResultMessage → AgentMessage

-- `message_id` of lifecycle.rs and of compaction.rs.
abbrev pub message_id : AgentMessage → ℕ
message_id (user id _) = id
message_id (assistant m) = m.id
message_id (tool_result m) = m.id
