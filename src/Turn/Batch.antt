-- ===== src/Turn/Batch.antt =====
-- run/tool_execution.rs and run/mod.rs: the loops over the tool calls of one response, of which every
-- call is to be answered by one result.
pub mod Answered
pub mod Answers
pub mod Returns
use pi_agent_core_rs.Prelude.{
  Bool, true, false, ◌&&◌, ◌||◌, List, [], ◌∷◌, Option, none, some, Text, is_empty, if◌then◌else◌,
}
use pi_agent_core_rs.Tool.Failure.{recoverable, plain}
use pi_agent_core_rs.Tool.Truncate.{truncate_middle}
use pi_agent_core_rs.State.Types.{AgentToolCall}
use pi_agent_core_rs.Agent.Events.{AgentToolResult, AgentEventKind}
use pi_agent_core_rs.Scheduler.{ToolCall, ToolExecutionMode, sequential, parallel}
use pi_agent_core_rs.Tool.Registry.{AgentTool, get_tool}
use pi_agent_core_rs.Tool.Breaker.{Observation, observe_tool_failure, normalize_result_failure}
use pi_agent_core_rs.Turn.Host.{StartedTool, Host, Turn}
use pi_agent_core_rs.Turn.Exec.{Exec, ◌>>=◌, ◌>>◌, pure, gets, after_call, is_cancelled, emit, ok}
use pi_agent_core_rs.Turn.Results.{error_tool_result, skipped, truncated}
use pi_agent_core_rs.Turn.Calls.{
  call_of, PreparedToolCall, immediate, execute_tool, ToolBatchOutcome, announce_call,
  emit_tool_execution_end, append_tool_result_message, run_future, prepare_tool_call,
  finalize_executed_tool,
}

abbrev is_sequential : ToolExecutionMode → Bool
is_sequential sequential = true
is_sequential parallel = false

module _ {W Json : Type 0} (host : Host W Json) where
  -- `tool.execute`, with the world and the updates that it leaves.
  unfoldable pub start_tool : AgentTool Json → ToolCall → Exec W (StartedTool W)
  start_tool tool call t =
      let started = host.execute tool call t.world in (after_call host started.world t, ok started)

  execute_prepared : ToolCall → PreparedToolCall Json → Exec W (AgentToolResult × Bool)
  execute_prepared call (immediate result ends) = pure (result, ends)
  execute_prepared call (execute_tool tool) = do
    started ← start_tool tool call
    stopped ← is_cancelled host
    let permitted = if is_empty started.updates then false else stopped
    outcome ← run_future host call started.future started.updates permitted
    finalize_executed_tool host call outcome

  unfoldable pub execute_one_tool_call : ToolCall → Exec W (AgentToolResult × Bool)
  unfolding execute_prepared
  execute_one_tool_call call = do
    prepared ← prepare_tool_call host call
    execute_prepared call prepared

  emit_observed : Option AgentEventKind → Exec W (Unit {0})
  emit_observed none = pure tt
  emit_observed (some kind) = emit host kind

  note_streak : Observation → Exec W (Unit {0})
  note_streak observed t = (record t { streak = observed.streak }, ok tt)

  -- `observe_tool_failure`, the message with which the run ends.
  unfoldable pub observe_failure : ToolCall → AgentToolResult → Exec W (Option Text)
  unfolding emit_observed note_streak
  observe_failure call result = do
    stopped ← is_cancelled host
    observed ← gets (λ t. observe_tool_failure host.breaker stopped call.id result t.streak)
    note_streak observed
    emit_observed observed.event
    pure observed.terminal

  skipped_result : ToolCall → Text → AgentToolResult
  skipped_result call message = error_tool_result call (skipped (truncate_middle message 512))

  unfoldable pub append_skipped_sequential_calls : List AgentToolCall → Text → Exec W (Unit {0})
  unfolding skipped_result
  append_skipped_sequential_calls [] message = pure tt
  append_skipped_sequential_calls (call ∷ calls) message = do
    append_tool_result_message host (call_of call) (skipped_result (call_of call) message)
    append_skipped_sequential_calls calls message

  unfoldable pub fail_truncated_tool_calls : List AgentToolCall → Exec W Bool
  fail_truncated_tool_calls [] = pure false
  fail_truncated_tool_calls (call ∷ calls) = do
    announce_call host (call_of call)
    emit_tool_execution_end host (call_of call)
        (error_tool_result (call_of call) (truncated (call_of call)))
    append_tool_result_message host (call_of call)
        (error_tool_result (call_of call) (truncated (call_of call)))
    fail_truncated_tool_calls calls

  -- One call of the sequential loop up to its observation: the terminal message, and whether it
  -- wants the batch to terminate.
  unfoldable pub execute_call : ToolCall → Exec W (Option Text × Bool)
  execute_call call = do
    announce_call host call
    (result, ends) ← execute_one_tool_call call
    let normal = normalize_result_failure result
    emit_tool_execution_end host call normal
    append_tool_result_message host call normal
    terminal ← observe_failure call normal
    pure (terminal, ends)

  -- What follows a call: the skipped ones behind a terminal failure, or the loop.
  after_observed :
      List AgentToolCall
      → Bool
      → (Bool → Exec W ToolBatchOutcome)
      → Option Text × Bool
      → Exec W ToolBatchOutcome
  after_observed calls all_terminate next (some message, ends) = do
    append_skipped_sequential_calls calls message
    pure (record { all_terminate = false; terminal_failure = some message })
  after_observed calls all_terminate next (none, ends) = next (all_terminate && ends)

  unfoldable pub execute_from : List AgentToolCall → Bool → Exec W ToolBatchOutcome
  unfolding after_observed
  execute_from [] all_terminate =
      pure (record { all_terminate = all_terminate; terminal_failure = none })
  execute_from (call ∷ calls) all_terminate = do
    done ← execute_call (call_of call)
    after_observed calls all_terminate (execute_from calls) done

  unfoldable pub execute_tool_calls_sequential : List AgentToolCall → Exec W ToolBatchOutcome
  execute_tool_calls_sequential calls = execute_from calls true
