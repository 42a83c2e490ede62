-- ===== src/State/Equality.antt =====
-- The derived `PartialEq` of state/messages.rs and of the types in a message: field by field, in the
-- order of the declaration.
pub mod Sound
use pi_agent_core_rs.Prelude.{
  ℕ, Bool, true, false, not, ◌&&◌, ◌||◌, List, [], ◌∷◌, Option, none, some, Text, text_eq, ◌==◌,
}
use pi_agent_core_rs.Tool.Failure.{
  ToolFailureDisposition, cancelled, invalid_arguments, recoverable, retryable, fatal, ToolFailure,
}
use pi_agent_core_rs.State.Types.{
  Usage, StopReason, AgentToolCall, ToolResultMessage, AssistantMessage, AgentMessage, user,
  assistant, tool_result,
}

module _ {A : Type 0} (same : A → A → Bool) where
  abbrev pub option_eq : Option A → Option A → Bool
  option_eq none none = true
  option_eq (some a) (some b) = same a b
  option_eq _ _ = false

  unfoldable pub list_eq : List A → List A → Bool
  list_eq [] [] = true
  list_eq [] (_ ∷ _) = false
  list_eq (_ ∷ _) [] = false
  list_eq (a ∷ as') (b ∷ bs) = same a b && list_eq as' bs

abbrev pub nat_eq : ℕ → ℕ → Bool
nat_eq a b = a == b

abbrev pub bool_eq : Bool → Bool → Bool
bool_eq true b = b
bool_eq false b = not b

abbrev pub stop_reason_eq : StopReason → StopReason → Bool
stop_reason_eq StopReason.stop StopReason.stop = true
stop_reason_eq StopReason.tool_use StopReason.tool_use = true
stop_reason_eq StopReason.length_limit StopReason.length_limit = true
stop_reason_eq StopReason.aborted StopReason.aborted = true
stop_reason_eq StopReason.cancelled StopReason.cancelled = true
stop_reason_eq StopReason.error StopReason.error = true
stop_reason_eq _ _ = false

abbrev pub disposition_eq : ToolFailureDisposition → ToolFailureDisposition → Bool
disposition_eq cancelled cancelled = true
disposition_eq invalid_arguments invalid_arguments = true
disposition_eq recoverable recoverable = true
disposition_eq retryable retryable = true
disposition_eq fatal fatal = true
disposition_eq _ _ = false

unfoldable pub failure_eq : ToolFailure → ToolFailure → Bool
failure_eq a b =
    disposition_eq a.disposition b.disposition
    && (option_eq text_eq a.signature b.signature
        && option_eq text_eq a.recovery_guidance b.recovery_guidance)

unfoldable pub usage_eq : Usage → Usage → Bool
usage_eq a b =
    option_eq nat_eq a.input_tokens b.input_tokens
    && (option_eq nat_eq a.output_tokens b.output_tokens
        && (option_eq nat_eq a.reasoning_tokens b.reasoning_tokens
            && (option_eq nat_eq a.cache_read_tokens b.cache_read_tokens
                && (option_eq nat_eq a.cache_write_tokens b.cache_write_tokens
                    && option_eq text_eq a.cost b.cost))))

unfoldable pub tool_call_eq : AgentToolCall → AgentToolCall → Bool
tool_call_eq a b = text_eq a.id b.id && (text_eq a.name b.name && text_eq a.arguments b.arguments)

unfoldable pub assistant_eq : AssistantMessage → AssistantMessage → Bool
unfolding list_eq tool_call_eq
assistant_eq a b =
    a.id == b.id
    && (text_eq a.content b.content
        && (list_eq tool_call_eq a.tool_calls b.tool_calls
            && (option_eq stop_reason_eq a.stop_reason b.stop_reason
                && option_eq text_eq a.error_message b.error_message)))

unfoldable pub tool_result_eq : ToolResultMessage → ToolResultMessage → Bool
unfolding list_eq usage_eq failure_eq
tool_result_eq a b =
    a.id == b.id
    && (text_eq a.tool_call_id b.tool_call_id
        && (text_eq a.tool_name b.tool_name
            && (text_eq a.content b.content
                && (option_eq text_eq a.details b.details
                    && (option_eq usage_eq a.usage b.usage
                        && (list_eq text_eq a.added_tool_names b.added_tool_names
                            && (bool_eq a.terminate b.terminate
                                && (bool_eq a.is_error b.is_error
                                    && option_eq failure_eq a.failure b.failure))))))))

unfoldable pub message_eq : AgentMessage → AgentMessage → Bool
unfolding assistant_eq tool_result_eq
message_eq (user i s) (user j t) = i == j && text_eq s t
message_eq (assistant a) (assistant b) = assistant_eq a b
message_eq (tool_result a) (tool_result b) = tool_result_eq a b
message_eq _ _ = false
