-- ===== src/Turn/Calls.antt =====
-- run/tool_execution.rs: the execution of tool calls one after the other, and run/mod.rs:
-- `fail_truncated_tool_calls`.
pub mod Quiet
pub mod Steady
use pi_agent_core_rs.Prelude.{
  ℕ, Bool, true, false, not, ◌&&◌, List, [], ◌∷◌, ◌++◌, Option, none, some, Text, codes, text_eq,
  if◌then◌else◌, is_empty,
}
use pi_agent_core_rs.Prelude.Sets.{set_insert, set_remove}
use pi_agent_core_rs.Tool.Truncate.{truncate_middle}
use pi_agent_core_rs.State.Types.{AgentToolCall, ToolResultMessage, AgentMessage, tool_result}
use pi_agent_core_rs.Agent.Events.{
  AgentToolResult, ToolUpdate, AgentEventKind, message_start, message_end, tool_execution_start,
  tool_execution_update, tool_execution_end,
}
use pi_agent_core_rs.Agent.State.{AgentState, allocate_message_id}
use pi_agent_core_rs.Scheduler.{ToolCall}
use pi_agent_core_rs.Tool.Registry.{AgentTool, get_tool}
use pi_agent_core_rs.Tool.Breaker.{Observation, observe_tool_failure, normalize_result_failure}
use pi_agent_core_rs.Turn.Host.{
  ToolError, BeforeToolCall, allow, block, terminate, HookResult, accepted, refused, AfterToolCall,
  ToolOutcome, returned, threw, ToolFuture, ready, pending, StartedTool, Host, Turn,
}
use pi_agent_core_rs.Turn.Exec.{
  Exec, ◌>>=◌, ◌>>◌, pure, gets, modify_state, current_context, after_call, touch, is_cancelled,
  call_hook, emit, ok,
}
use pi_agent_core_rs.Turn.Results.{
  error_tool_result, error_tool_result_from_error, aborted_result, apply_after_tool_call, not_found,
  mismatched, skipped, truncated,
}

abbrev pub call_of : AgentToolCall → ToolCall
call_of call = record { id = call.id; name = call.name; arguments = call.arguments }

-- `PreparedToolCall`.
pub data PreparedToolCall (Json : Type 0) : Type 0 where
  immediate : AgentToolResult → (terminate : Bool) → PreparedToolCall Json
  execute_tool : AgentTool Json → PreparedToolCall Json

pub record ToolBatchOutcome : Type 0 where
  pub all_terminate : Bool
  pub terminal_failure : Option Text

unfoldable pub result_message : ToolCall → AgentToolResult → ℕ → ToolResultMessage
result_message call result id = record {
  id = id;
  tool_call_id = call.id;
  tool_name = call.name;
  content = result.content;
  details = result.details;
  usage = result.usage;
  added_tool_names = result.added_tool_names;
  terminate = result.terminate;
  is_error = result.is_error;
  failure = result.failure;
}

abbrev add_pending : Text → AgentState → AgentState
add_pending id s = record s { pending_tool_calls = set_insert id s.pending_tool_calls }

abbrev remove_pending : Text → AgentState → AgentState
remove_pending id s = record s { pending_tool_calls = set_remove id s.pending_tool_calls }

module _ {W : Type 0} where
  -- The insertion of a message under the lock of the agent's state.
  unfoldable pub push_result : ToolCall → AgentToolResult → Exec W AgentMessage
  unfolding result_message allocate_message_id
  push_result call result t =
      let (s, id) = allocate_message_id t.state in
      let message = tool_result (result_message call result id) in
      let pushed : AgentState = record s { messages = s.messages ++ message ∷ [] } in
      (record t { state = pushed }, ok message)

module _ {W Json : Type 0} (host : Host W Json) where
  unfoldable pub announce_call : ToolCall → Exec W (Unit {0})
  announce_call call = do
    modify_state (add_pending call.id)
    emit host (tool_execution_start call.id call.name call.arguments)

  unfoldable pub emit_tool_execution_end : ToolCall → AgentToolResult → Exec W (Unit {0})
  emit_tool_execution_end call result = do
    modify_state (remove_pending call.id)
    emit host (tool_execution_end call.id call.name result)

  unfoldable pub append_tool_result_message : ToolCall → AgentToolResult → Exec W (Unit {0})
  append_tool_result_message call result = do
    message ← push_result call result
    emit host (message_start message)
    emit host (message_end message)

  unfoldable pub emit_tool_updates : ToolCall → List ToolUpdate → Exec W (Unit {0})
  emit_tool_updates call [] = pure tt
  emit_tool_updates call (update ∷ updates) = do
    emit host (tool_execution_update call.id call.name update)
    emit_tool_updates call updates

  -- The parts of `next_tool_step` before the future is polled: `none` when the step completes by
  -- cancellation, else the permission of the next poll.
  unfoldable pub deliver : ToolCall → List ToolUpdate → Bool → Exec W (Option Bool)
  deliver call queued permitted = do
    stopped ← is_cancelled host
    emit_tool_updates call queued
    later ← is_cancelled host
    pure (
        if stopped && not permitted
        then none
        else some (if is_empty queued then permitted else later))

  abbrev cancelled_operation : ToolOutcome
  cancelled_operation = threw (ToolError.cancelled (codes "cancelled operation"))

  poll_ready : ToolCall → (W → W) → List ToolUpdate → ToolOutcome → Option Bool → Exec W ToolOutcome
  poll_ready call polled updates outcome none = pure cancelled_operation
  poll_ready call polled updates outcome (some _) = do
    touch host polled
    emit_tool_updates call updates
    pure outcome

  -- Behind a pending poll without updates the operation ends if it is cancelled by then.
  poll_pending :
      ToolCall
      → (W → W)
      → List ToolUpdate
      → (W → W)
      → (Bool → Exec W ToolOutcome)
      → Option Bool
      → Exec W ToolOutcome
  poll_pending call polled updates woken next none = pure cancelled_operation
  poll_pending call polled updates woken next (some permitted) = do
    touch host polled
    emit_tool_updates call updates
    stopped ← is_cancelled host
    (if is_empty updates && stopped
        then pure cancelled_operation
        else (touch host woken >> next (if is_empty updates then permitted else stopped)))

  -- The loop of `execute_one_tool_call` over the steps of one future. The updates of a call that has
  -- completed are closed, so that flushing them afterwards finds none.
  unfoldable pub run_future : ToolCall → ToolFuture W → List ToolUpdate → Bool → Exec W ToolOutcome
  unfolding poll_ready poll_pending
  run_future call (ready polled updates outcome) queued permitted = do
    step ← deliver call queued permitted
    poll_ready call polled updates outcome step
  run_future call (pending polled updates woken next_queued rest) queued permitted = do
    step ← deliver call queued permitted
    poll_pending call polled updates woken (run_future call rest next_queued) step

  unfoldable pub refuse : ToolCall → Text → PreparedToolCall Json
  refuse call message = immediate (error_tool_result call message) false

  after_hook :
      ToolCall → AgentTool Json → HookResult BeforeToolCall → Exec W (PreparedToolCall Json)
  after_hook call tool (accepted (block reason)) = pure (refuse call reason)
  after_hook call tool (accepted (terminate reason)) =
      pure (immediate (error_tool_result call reason) true)
  after_hook call tool (refused message) = pure (refuse call message)
  after_hook call tool (accepted allow) = do
    stopped ← is_cancelled host
    pure (if stopped then immediate (aborted_result call) false else execute_tool tool)

  check_arguments : ToolCall → AgentTool Json → Option ToolError → Exec W (PreparedToolCall Json)
  unfolding after_hook
  check_arguments call tool (some error) =
      pure (immediate (error_tool_result_from_error call error) false)
  check_arguments call tool none = do
    context ← current_context
    r ← call_hook host (host.before_tool_call call context)
    after_hook call tool r

  prepare_found : ToolCall → Option (AgentTool Json) → Exec W (PreparedToolCall Json)
  unfolding check_arguments
  prepare_found call none = pure (refuse call (not_found call))
  prepare_found call (some tool) =
      check_arguments call tool (host.validate_tool_arguments call.name tool.schema call.arguments)

  unfoldable pub prepare_tool_call : ToolCall → Exec W (PreparedToolCall Json)
  unfolding prepare_found
  prepare_tool_call call = prepare_found call (get_tool call.name host.tools)

  -- The result before `after_tool_call`.
  unfoldable pub own_result : ToolCall → ToolOutcome → AgentToolResult
  own_result call (threw error) = error_tool_result_from_error call error
  own_result call (returned result) =
      if text_eq result.tool_call_id call.id
      then result
      else error_tool_result call (mismatched call result.tool_call_id)

  apply_hook : ToolCall → AgentToolResult → HookResult AfterToolCall → AgentToolResult × Bool
  apply_hook call result (accepted after) =
      let changed = apply_after_tool_call after result in (changed, changed.terminate)
  apply_hook call result (refused message) = (error_tool_result call message, false)

  unfoldable pub finalize_executed_tool : ToolCall → ToolOutcome → Exec W (AgentToolResult × Bool)
  unfolding own_result apply_hook
  finalize_executed_tool call outcome = do
    context ← current_context
    r ← call_hook host (host.after_tool_call call (own_result call outcome) context)
    pure (apply_hook call (own_result call outcome) r)
