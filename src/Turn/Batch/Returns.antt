-- ===== src/Turn/Batch/Returns.antt =====
-- The sequential execution of a batch returns an outcome, with all calls answered, while the agent owns
-- the run and no observer fails: failing tools and hooks become results.
use pi_agent_core_rs.Prelude.{
  Bool, true, List, [], ◌∷◌, ◌++◌, map, Option, none, some, Text, ◌≡◌, refl,
}
use mathlib.Core.List.{append-nil}
use pi_agent_core_rs.State.Types.{AgentToolCall, ToolResultMessage, tool_result}
use pi_agent_core_rs.Agent.Events.{AgentToolResult, AgentEventKind}
use pi_agent_core_rs.Agent.State.{allocate_message_id}
use pi_agent_core_rs.Scheduler.{ToolCall}
use pi_agent_core_rs.Tool.Registry.{AgentTool}
use pi_agent_core_rs.Tool.Breaker.{Observation}
use pi_agent_core_rs.Turn.Host.{Host, Turn}
use pi_agent_core_rs.Turn.Exec.{Result, ok, Exec, is_owned}
use pi_agent_core_rs.Turn.Exec.Steady.{
  Returned, return_owned, Steady, Accepting, Steady-bind, steady_rules, after_call_owned,
  Steady-is_cancelled, Steady-emit,
}
use pi_agent_core_rs.Turn.Calls.{
  PreparedToolCall, immediate, execute_tool, ToolBatchOutcome, push_result,
  append_tool_result_message,
}
use pi_agent_core_rs.Turn.Calls.Steady.{
  Steady-announce_call, Steady-emit_tool_execution_end, Steady-run_future, Steady-prepare_tool_call,
  Steady-finalize_executed_tool,
}
use pi_agent_core_rs.Turn.Batch.{
  start_tool, execute_prepared, execute_one_tool_call, emit_observed, note_streak, observe_failure,
  append_skipped_sequential_calls, execute_call, after_observed, execute_from,
  execute_tool_calls_sequential,
}
use pi_agent_core_rs.Turn.Batch.Answered.{Answered, AnswersFrom}
use pi_agent_core_rs.Turn.Batch.Answers.{execute_tool_calls_sequential-Answered}

Steady-push_result :
    {W : Type 0} (call : ToolCall) (result : AgentToolResult)
    → Steady {W = W} (push_result call result)
unfolding push_result allocate_message_id
Steady-push_result call result = record { at = λ t h. return_owned _ _ h }

module _ {W Json : Type 0} (host : Host W Json) (accepting : Accepting host) where
  Steady-append_tool_result_message :
      (call : ToolCall) (result : AgentToolResult)
      → Steady (append_tool_result_message host call result)
  unfolding append_tool_result_message
  Steady-append_tool_result_message call result =
      search (steady_rules, Steady-push_result, Steady-emit)

  Steady-append_skipped_sequential_calls :
      (calls : List AgentToolCall) (message : Text)
      → Steady (append_skipped_sequential_calls host calls message)
  unfolding append_skipped_sequential_calls
  Steady-append_skipped_sequential_calls [] message = search steady_rules
  Steady-append_skipped_sequential_calls (call ∷ calls) message =
      Steady-bind _ _ (Steady-append_tool_result_message _ _)
        (λ _. Steady-append_skipped_sequential_calls calls message)

  Steady-start_tool : (tool : AgentTool Json) (call : ToolCall) → Steady (start_tool host tool call)
  unfolding start_tool
  Steady-start_tool tool call = record {
    at = λ t h. return_owned _ _ (after_call_owned host (host.execute tool call t.world).world t h);
  }

  Steady-execute_prepared :
      (call : ToolCall) (prepared : PreparedToolCall Json)
      → Steady (execute_prepared host call prepared)
  unfolding execute_prepared
  Steady-execute_prepared call (immediate result ends) = search steady_rules
  Steady-execute_prepared call (execute_tool tool) = search (
    steady_rules, Steady-start_tool, Steady-is_cancelled, Steady-run_future,
    Steady-finalize_executed_tool,
  )

  Steady-execute_one_tool_call : (call : ToolCall) → Steady (execute_one_tool_call host call)
  unfolding execute_one_tool_call
  Steady-execute_one_tool_call call =
      search (steady_rules, Steady-prepare_tool_call, Steady-execute_prepared)

  Steady-note_streak : (o : Observation) → Steady (note_streak host o)
  unfolding note_streak
  Steady-note_streak o = record { at = λ t h. return_owned (record t { streak = o.streak }) tt h }

  Steady-emit_observed : (o : Option AgentEventKind) → Steady (emit_observed host o)
  unfolding emit_observed
  Steady-emit_observed none = search steady_rules
  Steady-emit_observed (some kind) = Steady-emit host accepting kind

  Steady-observe :
      (call : ToolCall) (result : AgentToolResult) → Steady (observe_failure host call result)
  unfolding observe_failure
  Steady-observe call result =
      search (steady_rules, Steady-is_cancelled, Steady-note_streak, Steady-emit_observed)

  Steady-execute_call : (call : ToolCall) → Steady (execute_call host call)
  unfolding execute_call
  Steady-execute_call call =
      search
        (
          steady_rules, Steady-announce_call, Steady-execute_one_tool_call,
          Steady-emit_tool_execution_end, Steady-append_tool_result_message, Steady-observe,
        )
        depth 8

  Steady-after_observed :
      (calls : List AgentToolCall) (all_terminate : Bool) (next : Bool → Exec W ToolBatchOutcome)
      → (done : Option Text × Bool) → ((b : Bool) → Steady (next b))
      → Steady (after_observed host calls all_terminate next done)
  unfolding after_observed
  Steady-after_observed calls all_terminate next (none, ends) sn = sn _
  Steady-after_observed calls all_terminate next (some message, ends) sn =
      search (steady_rules, Steady-append_skipped_sequential_calls)

  Steady-execute_from :
      (calls : List AgentToolCall) (all_terminate : Bool)
      → Steady (execute_from host calls all_terminate)
  unfolding execute_from
  Steady-execute_from [] all_terminate = search steady_rules
  Steady-execute_from (call ∷ calls) all_terminate =
      Steady-bind _ _ (Steady-execute_call _)
        (λ done. Steady-after_observed calls all_terminate _ done (Steady-execute_from calls))

-- All calls are answered, from the turn `t` to `t'`.
pub record AllAnswered {W : Type 0} (calls : List AgentToolCall) (t t' : Turn W) : Type 0 where
  pub answers : List ToolResultMessage
  pub appended : t'.state.messages ≡ t.state.messages ++ map tool_result answers
  pub in_order : AnswersFrom t.state.next_message_id calls answers

module _ {W : Type 0} where
  Answered-AllAnswered :
      (calls : List AgentToolCall) (t t' : Turn W) (o : ToolBatchOutcome)
      → Answered calls t (t', ok o)
      → AllAnswered calls t t'
  Answered-AllAnswered calls t t' o h = record {
    answers = h.answers;
    appended = h.appended;
    in_order = rw (h.splits, h.complete, append-nil) h.in_order;
  }

  Returned-AllAnswered :
      (calls : List AgentToolCall) (t : Turn W) (r : Turn W × Result ToolBatchOutcome)
      → Returned r
      → Answered calls t r
      → (o : ToolBatchOutcome) × (r.1 ≡ ok o) × AllAnswered calls t r.0
  Returned-AllAnswered calls t r (return_owned t' o h) a =
      (o, refl, Answered-AllAnswered calls t t' o a)

-- Where the agent owns the run and no observer returns an error, the sequential execution of a batch
-- returns an outcome, whatever its tools, hooks and argument checks do, if the future of a tool is ready after
-- finitely many polls; and by then one result for each call was appended to the transcript, in order,
-- under the call's ID and name and the next message ID.
pub execute_tool_calls_sequential_returns :
    {W Json : Type 0} (host : Host W Json) (calls : List AgentToolCall) (t : Turn W)
    → Accepting host
    → is_owned t.state.phase ≡ true
    → (o : ToolBatchOutcome) × ((execute_tool_calls_sequential host calls t).1 ≡ ok o)
      × AllAnswered calls t (execute_tool_calls_sequential host calls t).0
unfolding execute_tool_calls_sequential
execute_tool_calls_sequential_returns host calls t accepting owned =
    Returned-AllAnswered calls t _ ((Steady-execute_from host accepting calls true).at t owned)
      (execute_tool_calls_sequential-Answered host calls t)
