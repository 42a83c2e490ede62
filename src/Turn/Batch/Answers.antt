-- ===== src/Turn/Batch/Answers.antt =====
-- Every call of a batch is answered once and in order, also behind a terminal failure. A batch that an
-- observer's error cuts off has answered the first calls.
use pi_agent_core_rs.Prelude.{Bool, true, List, [], ◌∷◌, Option, none, some, Text, refl}
use pi_agent_core_rs.State.Types.{AgentToolCall}
use pi_agent_core_rs.Agent.Events.{AgentToolResult, AgentEventKind}
use pi_agent_core_rs.Agent.State.{allocate_message_id}
use pi_agent_core_rs.Scheduler.{ToolCall}
use pi_agent_core_rs.Tool.Registry.{AgentTool}
use pi_agent_core_rs.Tool.Breaker.{Observation}
use pi_agent_core_rs.Turn.Host.{Host, Turn}
use pi_agent_core_rs.Turn.Exec.{Exec}
use pi_agent_core_rs.Turn.Exec.Quiet.{
  Quiet, Quiet-bind, quiet_rules, after_call-Same, Quiet-is_cancelled, Quiet-emit,
}
use pi_agent_core_rs.Turn.Calls.{
  call_of, PreparedToolCall, immediate, execute_tool, ToolBatchOutcome, result_message, push_result,
  append_tool_result_message,
}
use pi_agent_core_rs.Turn.Calls.Quiet.{
  Quiet-announce_call, Quiet-emit_tool_execution_end, Quiet-run_future, Quiet-prepare_tool_call,
  Quiet-finalize_executed_tool,
}
use pi_agent_core_rs.Turn.Batch.{
  start_tool, execute_prepared, execute_one_tool_call, emit_observed, note_streak, observe_failure,
  append_skipped_sequential_calls, fail_truncated_tool_calls, execute_call, after_observed,
  execute_from, execute_tool_calls_sequential,
}
use pi_agent_core_rs.Turn.Batch.Answered.{
  Answered, Answering, Answering-end, Answering-bind, Answering-Quiet,
}

module _ {W : Type 0} where
  Answering-push_result :
      (call : AgentToolCall) (result : AgentToolResult)
      → Answering {W = W} (call ∷ []) (push_result (call_of call) result)
  unfolding push_result allocate_message_id result_message
  Answering-push_result call result = record {
    at = λ t. record {
      answered = call ∷ [];
      left = [];
      splits = refl;
      answers = result_message (call_of call) result t.state.next_message_id ∷ [];
      appended = refl;
      in_order = (refl, refl, refl, tt);
      next_message_id = refl;
      complete = refl;
    };
  }

module _ {W Json : Type 0} (host : Host W Json) where
  append_tool_result_message-Answering :
      (call : AgentToolCall) (result : AgentToolResult)
      → Answering (call ∷ []) (append_tool_result_message host (call_of call) result)
  unfolding append_tool_result_message
  append_tool_result_message-Answering call result =
      Answering-bind _ _ _ _ (Answering-push_result call result)
        (λ message. Answering-Quiet _ (Quiet-bind _ _ (Quiet-emit host _) (λ _. Quiet-emit host _)))

  append_skipped_sequential_calls-Answering :
      (calls : List AgentToolCall) (message : Text)
      → Answering calls (append_skipped_sequential_calls host calls message)
  unfolding append_skipped_sequential_calls
  append_skipped_sequential_calls-Answering [] message = Answering-Quiet _ (search quiet_rules)
  append_skipped_sequential_calls-Answering (call ∷ calls) message =
      Answering-bind (call ∷ []) calls _ _ (append_tool_result_message-Answering call _)
        (λ _. append_skipped_sequential_calls-Answering calls message)

  Quiet-start_tool : (tool : AgentTool Json) (call : ToolCall) → Quiet (start_tool host tool call)
  unfolding start_tool
  Quiet-start_tool tool call = record {
    at = λ t. after_call-Same host (host.execute tool call t.world).world t;
  }

  Quiet-execute_prepared :
      (call : ToolCall) (prepared : PreparedToolCall Json)
      → Quiet (execute_prepared host call prepared)
  unfolding execute_prepared
  Quiet-execute_prepared call (immediate result ends) = search quiet_rules
  Quiet-execute_prepared call (execute_tool tool) = search (
    quiet_rules, Quiet-start_tool, Quiet-is_cancelled, Quiet-run_future,
    Quiet-finalize_executed_tool,
  )

  Quiet-execute_one_tool_call : (call : ToolCall) → Quiet (execute_one_tool_call host call)
  unfolding execute_one_tool_call
  Quiet-execute_one_tool_call call =
      search (quiet_rules, Quiet-prepare_tool_call, Quiet-execute_prepared)

  Quiet-note_streak : (o : Observation) → Quiet (note_streak host o)
  unfolding note_streak
  Quiet-note_streak o = record { at = λ t. record { messages = refl; next_message_id = refl } }

  Quiet-emit_observed : (o : Option AgentEventKind) → Quiet (emit_observed host o)
  unfolding emit_observed
  Quiet-emit_observed none = search quiet_rules
  Quiet-emit_observed (some kind) = Quiet-emit host kind

  Quiet-observe :
      (call : ToolCall) (result : AgentToolResult) → Quiet (observe_failure host call result)
  unfolding observe_failure
  Quiet-observe call result =
      search (quiet_rules, Quiet-is_cancelled, Quiet-note_streak, Quiet-emit_observed)

  execute_call-Answering :
      (call : AgentToolCall) → Answering (call ∷ []) (execute_call host (call_of call))
  unfolding execute_call
  execute_call-Answering call =
      Answering-bind [] _ _ _ (Answering-Quiet _ (Quiet-announce_call host _)) λ _.
        Answering-bind [] _ _ _ (Answering-Quiet _ (Quiet-execute_one_tool_call _)) λ _.
          Answering-bind [] _ _ _ (Answering-Quiet _ (Quiet-emit_tool_execution_end host _ _)) λ _.
            Answering-bind _ [] _ _ (append_tool_result_message-Answering call _)
              λ _. Answering-Quiet _ (Quiet-bind _ _ (Quiet-observe _ _) (λ _. search quiet_rules))

  after_observed-Answering :
      (calls : List AgentToolCall) (all_terminate : Bool) (next : Bool → Exec W ToolBatchOutcome)
      → (done : Option Text × Bool) → ((b : Bool) → Answering calls (next b))
      → Answering calls (after_observed host calls all_terminate next done)
  unfolding after_observed
  after_observed-Answering calls all_terminate next (none, ends) an = an _
  after_observed-Answering calls all_terminate next (some message, ends) an =
      Answering-end calls _ (
        Answering-bind calls [] _ _ (append_skipped_sequential_calls-Answering calls message)
          (λ _. Answering-Quiet _ (search quiet_rules)))

  execute_from-Answering :
      (calls : List AgentToolCall) (all_terminate : Bool)
      → Answering calls (execute_from host calls all_terminate)
  unfolding execute_from
  execute_from-Answering [] all_terminate = Answering-Quiet _ (search quiet_rules)
  execute_from-Answering (call ∷ calls) all_terminate =
      Answering-bind (call ∷ []) calls _ _ (execute_call-Answering call)
        (λ done. after_observed-Answering calls all_terminate _ done (execute_from-Answering calls))

  fail_truncated_tool_calls-Answering :
      (calls : List AgentToolCall) → Answering calls (fail_truncated_tool_calls host calls)
  unfolding fail_truncated_tool_calls
  fail_truncated_tool_calls-Answering [] = Answering-Quiet _ (search quiet_rules)
  fail_truncated_tool_calls-Answering (call ∷ calls) =
      Answering-bind [] _ _ _ (Answering-Quiet _ (Quiet-announce_call host _)) λ _.
        Answering-bind [] _ _ _ (Answering-Quiet _ (Quiet-emit_tool_execution_end host _ _)) λ _.
          Answering-bind (call ∷ []) calls _ _ (append_tool_result_message-Answering call _)
            (λ _. fail_truncated_tool_calls-Answering calls)

  -- Whatever tools, hooks and observers do, the sequential execution of a batch only appends to the
  -- transcript: one result for each of the first calls, in order, under the calls' IDs and names and
  -- under the next message IDs. If it returns an outcome, with a terminal failure or without, all calls
  -- are answered.
  pub execute_tool_calls_sequential-Answered :
      (calls : List AgentToolCall) (t : Turn W)
      → Answered calls t (execute_tool_calls_sequential host calls t)
  unfolding execute_tool_calls_sequential
  execute_tool_calls_sequential-Answered calls t = (execute_from-Answering calls true).at t

  -- So do the refusals of the calls in a truncated response.
  pub fail_truncated_tool_calls-Answered :
      (calls : List AgentToolCall) (t : Turn W)
      → Answered calls t (fail_truncated_tool_calls host calls t)
  fail_truncated_tool_calls-Answered calls t = (fail_truncated_tool_calls-Answering calls).at t
