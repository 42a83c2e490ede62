-- ===== src/Turn/Results.antt =====
-- run/mod.rs: the results that the run loop builds for a tool call, and what a hook changes in one.
use pi_agent_core_rs.Prelude.{Bool, true, false, [], ◌++◌, Option, none, some, Text, codes}
use pi_agent_core_rs.Tool.Failure.{ToolFailure, cancelled, invalid_arguments, recoverable, plain}
use pi_agent_core_rs.State.Types.{Usage}
use pi_agent_core_rs.Agent.Events.{AgentToolResult}
use pi_agent_core_rs.Scheduler.{ToolCall}
use pi_agent_core_rs.Turn.Host.{
  ToolError, execution, blocked, classified, Replacement, keep, replace, AfterToolCall,
}

unfoldable pub error_tool_result : ToolCall → Text → AgentToolResult
error_tool_result call content = record {
  tool_call_id = call.id;
  content = content;
  details = none;
  usage = none;
  added_tool_names = [];
  terminate = false;
  is_error = true;
  failure = some (plain recoverable);
}

unfoldable pub tool_error_message : ToolError → Text
tool_error_message (ToolError.invalid_arguments _ message) = message
tool_error_message (execution _ message) = message
tool_error_message (classified _ message _) = message
tool_error_message (blocked _ reason) = reason
tool_error_message (ToolError.cancelled _) = codes "Operation aborted"

-- The classification in `error_tool_result_from_error`.
unfoldable pub error_failure : ToolError → ToolFailure
error_failure (ToolError.invalid_arguments _ _) = plain invalid_arguments
error_failure (execution _ _) = plain recoverable
error_failure (classified _ _ failure) = failure
error_failure (blocked _ _) = plain recoverable
error_failure (ToolError.cancelled _) = plain cancelled

unfoldable pub error_tool_result_from_error : ToolCall → ToolError → AgentToolResult
unfolding error_tool_result
error_tool_result_from_error call error =
    record (error_tool_result call (tool_error_message error)) {
      failure = some (error_failure error);
    }

-- The result of a call that cancellation kept from being executed.
unfoldable pub aborted_result : ToolCall → AgentToolResult
unfolding error_tool_result
aborted_result call = record (error_tool_result call (codes "Operation aborted")) {
  failure = some (plain cancelled);
}

abbrev pub replacing {ℓ} : {A : Type ℓ} → Replacement A → A → A
replacing keep old = old
replacing (replace new) old = new

-- `Replacement::Replace(usage)` wraps the new usage.
abbrev replacing_usage : Replacement Usage → Option Usage → Option Usage
replacing_usage keep old = old
replacing_usage (replace new) old = some new

abbrev or_old : Option Bool → Bool → Bool
or_old none old = old
or_old (some new) old = new

-- A result that is replaced by a success loses its failure.
abbrev cleared_failure : Replacement Bool → Option ToolFailure → Option ToolFailure
cleared_failure (replace false) failure = none
cleared_failure (replace true) failure = failure
cleared_failure keep failure = failure

unfoldable pub apply_after_tool_call : AfterToolCall → AgentToolResult → AgentToolResult
apply_after_tool_call after result = record result {
  content = replacing after.content result.content;
  details = replacing after.details result.details;
  usage = replacing_usage after.usage result.usage;
  added_tool_names = replacing after.added_tool_names result.added_tool_names;
  terminate = or_old after.terminate result.terminate;
  is_error = replacing after.is_error result.is_error;
  failure = replacing after.failure (cleared_failure after.is_error result.failure);
}

unfoldable pub not_found : ToolCall → Text
not_found call = codes "Tool " ++ (call.name ++ codes " not found")

unfoldable pub mismatched : ToolCall → Text → Text
mismatched call id =
    codes "Tool " ++ (call.name ++ (codes " returned mismatched tool-call ID " ++ id))

unfoldable pub skipped : Text → Text
skipped bounded = codes "Tool call was not executed after terminal capability failure: " ++ bounded

unfoldable pub truncated : ToolCall → Text
truncated call =
    codes "Tool call \""
    ++ (call.name
        ++ codes
            "\" was not executed: the response hit the output token limit, so its arguments may be truncated. Re-issue the tool call with complete arguments.")
