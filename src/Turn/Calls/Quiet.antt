-- ===== src/Turn/Calls/Quiet.antt =====
-- The parts of a tool call that leave the transcript and the counter of message IDs as they are.
use pi_agent_core_rs.Prelude.{Bool, List, [], ◌∷◌, Option, none, some, Text, refl}
use pi_agent_core_rs.Tool.Registry.{AgentTool}
use pi_agent_core_rs.Agent.Events.{AgentToolResult, ToolUpdate}
use pi_agent_core_rs.Scheduler.{ToolCall}
use pi_agent_core_rs.Turn.Host.{
  ToolError, BeforeToolCall, allow, block, terminate, HookResult, accepted, refused, ToolOutcome,
  ToolFuture, ready, pending, Host,
}
use pi_agent_core_rs.Turn.Exec.{Exec, modify_state}
use pi_agent_core_rs.Turn.Exec.Quiet.{
  Quiet, Quiet-bind, quiet_rules, Quiet-touch, Quiet-is_cancelled, Quiet-call_hook, Quiet-emit,
}
use pi_agent_core_rs.Turn.Calls.{
  add_pending, remove_pending, announce_call, emit_tool_execution_end, emit_tool_updates, deliver,
  poll_ready, poll_pending, run_future, after_hook, check_arguments, prepare_found,
  prepare_tool_call, finalize_executed_tool,
}

Quiet-add_pending : {W : Type 0} (id : Text) → Quiet {W = W} (modify_state (add_pending id))
unfolding modify_state
Quiet-add_pending id = record { at = λ t. record { messages = refl; next_message_id = refl } }

Quiet-remove_pending : {W : Type 0} (id : Text) → Quiet {W = W} (modify_state (remove_pending id))
unfolding modify_state
Quiet-remove_pending id = record { at = λ t. record { messages = refl; next_message_id = refl } }

module _ {W Json : Type 0} (host : Host W Json) where
  pub Quiet-announce_call : (call : ToolCall) → Quiet (announce_call host call)
  unfolding announce_call
  Quiet-announce_call call = search (quiet_rules, Quiet-add_pending, Quiet-emit)

  pub Quiet-emit_tool_execution_end :
      (call : ToolCall) (result : AgentToolResult)
      → Quiet (emit_tool_execution_end host call result)
  unfolding emit_tool_execution_end
  Quiet-emit_tool_execution_end call result = search (quiet_rules, Quiet-remove_pending, Quiet-emit)

  pub Quiet-emit_tool_updates :
      (call : ToolCall) (updates : List ToolUpdate) → Quiet (emit_tool_updates host call updates)
  unfolding emit_tool_updates
  Quiet-emit_tool_updates call [] = search quiet_rules
  Quiet-emit_tool_updates call (update ∷ updates) =
      Quiet-bind _ _ (Quiet-emit host _) (λ _. Quiet-emit_tool_updates call updates)

  Quiet-deliver :
      (call : ToolCall) (queued : List ToolUpdate) (permitted : Bool)
      → Quiet (deliver host call queued permitted)
  unfolding deliver
  Quiet-deliver call queued permitted =
      search (quiet_rules, Quiet-is_cancelled, Quiet-emit_tool_updates)

  Quiet-poll_ready :
      (call : ToolCall) (polled : W → W) (updates : List ToolUpdate) (outcome : ToolOutcome)
      → (step : Option Bool) → Quiet (poll_ready host call polled updates outcome step)
  unfolding poll_ready
  Quiet-poll_ready call polled updates outcome none = search quiet_rules
  Quiet-poll_ready call polled updates outcome (some b) =
      search (quiet_rules, Quiet-touch, Quiet-emit_tool_updates)

  Quiet-poll_pending :
      (call : ToolCall) (polled : W → W) (updates : List ToolUpdate) (woken : W → W)
      → (next : Bool → Exec W ToolOutcome) → (step : Option Bool) → ((b : Bool) → Quiet (next b))
      → Quiet (poll_pending host call polled updates woken next step)
  unfolding poll_pending
  Quiet-poll_pending call polled updates woken next none q = search quiet_rules
  Quiet-poll_pending call polled updates woken next (some b) q =
      search (quiet_rules, Quiet-touch, Quiet-is_cancelled, Quiet-emit_tool_updates, q) depth 8

  pub Quiet-run_future :
      (call : ToolCall) (future : ToolFuture W) (queued : List ToolUpdate) (permitted : Bool)
      → Quiet (run_future host call future queued permitted)
  unfolding run_future
  Quiet-run_future call (ready polled updates outcome) queued permitted =
      search (quiet_rules, Quiet-deliver, Quiet-poll_ready)
  Quiet-run_future call (pending polled updates woken more rest) queued permitted =
      Quiet-bind _ _ (Quiet-deliver call queued permitted) (λ step.
        Quiet-poll_pending call polled updates woken _ step (Quiet-run_future call rest more))

  Quiet-after_hook :
      (call : ToolCall) (tool : AgentTool Json) (r : HookResult BeforeToolCall)
      → Quiet (after_hook host call tool r)
  unfolding after_hook
  Quiet-after_hook call tool (accepted (block reason)) = search quiet_rules
  Quiet-after_hook call tool (accepted (terminate reason)) = search quiet_rules
  Quiet-after_hook call tool (refused message) = search quiet_rules
  Quiet-after_hook call tool (accepted allow) = search (quiet_rules, Quiet-is_cancelled)

  Quiet-check_arguments :
      (call : ToolCall) (tool : AgentTool Json) (r : Option ToolError)
      → Quiet (check_arguments host call tool r)
  unfolding check_arguments
  Quiet-check_arguments call tool (some error) = search quiet_rules
  Quiet-check_arguments call tool none = search (quiet_rules, Quiet-call_hook, Quiet-after_hook)

  Quiet-prepare_found :
      (call : ToolCall) (r : Option (AgentTool Json)) → Quiet (prepare_found host call r)
  unfolding prepare_found
  Quiet-prepare_found call none = search quiet_rules
  Quiet-prepare_found call (some tool) = Quiet-check_arguments call tool _

  pub Quiet-prepare_tool_call : (call : ToolCall) → Quiet (prepare_tool_call host call)
  unfolding prepare_tool_call
  Quiet-prepare_tool_call call = Quiet-prepare_found call _

  pub Quiet-finalize_executed_tool :
      (call : ToolCall) (outcome : ToolOutcome) → Quiet (finalize_executed_tool host call outcome)
  unfolding finalize_executed_tool
  Quiet-finalize_executed_tool call outcome = search (quiet_rules, Quiet-call_hook)
