-- ===== src/Turn/Calls/Steady.antt =====
-- The parts of a tool call that return, while the agent owns a run and no
-- observer fails.
use pi_agent_core_rs.Prelude.{Bool, List, [], ◌∷◌, Option, none, some, Text, refl}
use pi_agent_core_rs.Tool.Registry.{AgentTool}
use pi_agent_core_rs.Agent.Events.{AgentToolResult, ToolUpdate}
use pi_agent_core_rs.Scheduler.{ToolCall}
use pi_agent_core_rs.Turn.Host.{
  ToolError, BeforeToolCall, allow, block, terminate, HookResult, accepted, refused, ToolOutcome,
  ToolFuture, ready, pending, Host,
}
use pi_agent_core_rs.Turn.Exec.{Exec, modify_state}
use pi_agent_core_rs.Turn.Exec.Steady.{
  Steady, Accepting, Steady-modify_state, Steady-bind, steady_rules, Steady-touch,
  Steady-is_cancelled, Steady-call_hook, Steady-emit,
}
use pi_agent_core_rs.Turn.Calls.{
  add_pending, remove_pending, announce_call, emit_tool_execution_end, emit_tool_updates, deliver,
  poll_ready, poll_pending, run_future, after_hook, check_arguments, prepare_found,
  prepare_tool_call, finalize_executed_tool,
}

Steady-add_pending : {W : Type 0} (id : Text) → Steady {W = W} (modify_state (add_pending id))
Steady-add_pending id = Steady-modify_state (add_pending id) (λ s. refl)

Steady-remove_pending : {W : Type 0} (id : Text) → Steady {W = W} (modify_state (remove_pending id))
Steady-remove_pending id = Steady-modify_state (remove_pending id) (λ s. refl)

module _ {W Json : Type 0} (host : Host W Json) (accepting : Accepting host) where
  pub Steady-announce_call : (call : ToolCall) → Steady (announce_call host call)
  unfolding announce_call
  Steady-announce_call call = search (steady_rules, Steady-add_pending, Steady-emit)

  pub Steady-emit_tool_execution_end :
      (call : ToolCall) (result : AgentToolResult)
      → Steady (emit_tool_execution_end host call result)
  unfolding emit_tool_execution_end
  Steady-emit_tool_execution_end call result =
      search (steady_rules, Steady-remove_pending, Steady-emit)

  pub Steady-emit_tool_updates :
      (call : ToolCall) (updates : List ToolUpdate) → Steady (emit_tool_updates host call updates)
  unfolding emit_tool_updates
  Steady-emit_tool_updates call [] = search steady_rules
  Steady-emit_tool_updates call (update ∷ updates) =
      Steady-bind _ _ (Steady-emit host accepting _) (λ _. Steady-emit_tool_updates call updates)

  Steady-deliver :
      (call : ToolCall) (queued : List ToolUpdate) (permitted : Bool)
      → Steady (deliver host call queued permitted)
  unfolding deliver
  Steady-deliver call queued permitted =
      search (steady_rules, Steady-is_cancelled, Steady-emit_tool_updates)

  Steady-poll_ready :
      (call : ToolCall) (polled : W → W) (updates : List ToolUpdate) (outcome : ToolOutcome)
      → (step : Option Bool) → Steady (poll_ready host call polled updates outcome step)
  unfolding poll_ready
  Steady-poll_ready call polled updates outcome none = search steady_rules
  Steady-poll_ready call polled updates outcome (some b) =
      search (steady_rules, Steady-touch, Steady-emit_tool_updates)

  Steady-poll_pending :
      (call : ToolCall) (polled : W → W) (updates : List ToolUpdate) (woken : W → W)
      → (next : Bool → Exec W ToolOutcome) → (step : Option Bool) → ((b : Bool) → Steady (next b))
      → Steady (poll_pending host call polled updates woken next step)
  unfolding poll_pending
  Steady-poll_pending call polled updates woken next none q = search steady_rules
  Steady-poll_pending call polled updates woken next (some b) q =
      search (steady_rules, Steady-touch, Steady-is_cancelled, Steady-emit_tool_updates, q) depth 8

  pub Steady-run_future :
      (call : ToolCall) (future : ToolFuture W) (queued : List ToolUpdate) (permitted : Bool)
      → Steady (run_future host call future queued permitted)
  unfolding run_future
  Steady-run_future call (ready polled updates outcome) queued permitted =
      search (steady_rules, Steady-deliver, Steady-poll_ready)
  Steady-run_future call (pending polled updates woken more rest) queued permitted =
      Steady-bind _ _ (Steady-deliver call queued permitted) (λ step.
        Steady-poll_pending call polled updates woken _ step (Steady-run_future call rest more))

  Steady-after_hook :
      (call : ToolCall) (tool : AgentTool Json) (r : HookResult BeforeToolCall)
      → Steady (after_hook host call tool r)
  unfolding after_hook
  Steady-after_hook call tool (accepted (block reason)) = search steady_rules
  Steady-after_hook call tool (accepted (terminate reason)) = search steady_rules
  Steady-after_hook call tool (refused message) = search steady_rules
  Steady-after_hook call tool (accepted allow) = search (steady_rules, Steady-is_cancelled)

  Steady-check_arguments :
      (call : ToolCall) (tool : AgentTool Json) (r : Option ToolError)
      → Steady (check_arguments host call tool r)
  unfolding check_arguments
  Steady-check_arguments call tool (some error) = search steady_rules
  Steady-check_arguments call tool none = search (steady_rules, Steady-call_hook, Steady-after_hook)

  Steady-prepare_found :
      (call : ToolCall) (r : Option (AgentTool Json)) → Steady (prepare_found host call r)
  unfolding prepare_found
  Steady-prepare_found call none = search steady_rules
  Steady-prepare_found call (some tool) = Steady-check_arguments call tool _

  pub Steady-prepare_tool_call : (call : ToolCall) → Steady (prepare_tool_call host call)
  unfolding prepare_tool_call
  Steady-prepare_tool_call call = Steady-prepare_found call _

  pub Steady-finalize_executed_tool :
      (call : ToolCall) (outcome : ToolOutcome) → Steady (finalize_executed_tool host call outcome)
  unfolding finalize_executed_tool
  Steady-finalize_executed_tool call outcome = search (steady_rules, Steady-call_hook)
