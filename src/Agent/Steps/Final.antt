-- ===== src/Agent/Steps/Final.antt =====
-- No call changes the outcome of a run that has settled.
use pi_agent_core_rs.Prelude.{
  ℕ, ◌≡◌, refl, inl, inr, Bool, true, false, List, [], ◌∷◌, Option, none, some, Text, arith,
  is_empty, get_elem?, last?, Option-cases, Bool-cases,
}
use pi_agent_core_rs.Queue.{drain}
use pi_agent_core_rs.State.Types.{
  AgentMessage, user, assistant, tool_result, RunPhase, is_terminal, StopReason,
}
use pi_agent_core_rs.Compaction.Policy.{AutomaticCompactionPolicy, validate_policy}
use pi_agent_core_rs.Agent.State.{CoreError, Run, System}
use pi_agent_core_rs.Agent.Run.{
  is_created, start_turn, advance_turn, begin_settlement, record_event, succeed, fail,
  settle_cancelled, settle_aborted,
}
use pi_agent_core_rs.Agent.Start.{
  owner, start_run, start_prompt, drain_continue_tail_messages, continue_tail, continue_from,
  start_continue, start_compaction, commit_replacement, commit_compaction,
}
use pi_agent_core_rs.Agent.Control.{
  set_provider, set_thinking_level, set_configuration, set_policy, abort_agent_run, while_idle,
  reset_idle, restore_idle, reset, restore_messages, replace_model_provider, replace_thinking_level,
  replace_configuration, replace_automatic_compaction, enqueue_steering, enqueue_follow_up,
  clear_all_queues, clear_steering_queue, clear_follow_up_queue,
}
use pi_agent_core_rs.Agent.Steps.{
  AgentOp, prompt_op, steer_op, follow_up_op, continue_op, compact_op, abort_op, reset_op,
  clear_queues_op, clear_steering_op, clear_follow_up_op, steering_mode_op, follow_up_mode_op,
  settle_aborted_op, restore_op, provider_op, thinking_op, configuration_op, policy_op,
  start_turn_op, advance_turn_op, begin_settlement_op, settle_cancelled_op, run_abort_op, drop_op,
  record_event_op, succeed_op, fail_op, commit_op, step, perform,
}
use pi_agent_core_rs.Agent.Steps.Outcomes.{
  KeepsOutcomes, keeps_same, keeps_append, keeps_set, keeps_trans, Keeps, on_run-Keeps,
  start_turn-final, advance_turn-final, begin_settlement-final, record_event-final, finish-Keeps,
  abort-Keeps, drop_handle-Keeps,
}

start_run-Keeps :
    (contents : List Text) (skip : Bool) (s : System) → Keeps s (start_run contents skip s).0
unfolding start_run
start_run-Keeps contents skip s = elim (Option-cases (owner s.agent.state.phase)) [
  | inl e ↦ rw (e, start_run) (keeps_append s.runs _)
  | inr (n, e) ↦ rw (e, start_run) (keeps_same s.runs)
]

drain_continue-runs : (s : System) → (drain_continue_tail_messages s).0.runs ≡ s.runs
unfolding drain_continue_tail_messages
drain_continue-runs s =
    elim (Bool-cases (is_empty (drain s.agent.steering_mode s.agent.queues.steering).1)) [
      | inl e ↦ rw (e, drain_continue_tail_messages) refl
      | inr e ↦ rw (e, drain_continue_tail_messages) refl
    ]

continue_tail-Keeps : (s : System) → Keeps s (continue_tail s).0
unfolding continue_tail
continue_tail-Keeps s =
    let s' = (drain_continue_tail_messages s).0 in
    let unchanged = drain_continue-runs s in
    elim (Bool-cases (is_empty (drain_continue_tail_messages s).1)) [
      | inl e ↦ rw (e, continue_tail) (rw unchanged (keeps_same s.runs))
      | inr e ↦
          rw (e, continue_tail) (λ h r g over. start_run-Keeps _ true s' h r (rw unchanged g) over)
    ]

continue_from-Keeps : (m : Option AgentMessage) (s : System) → Keeps s (continue_from m s).0
unfolding continue_from
continue_from-Keeps none s = keeps_same s.runs
continue_from-Keeps (some (assistant _)) s = continue_tail-Keeps s
continue_from-Keeps (some (user _ _)) s = start_run-Keeps [] false s
continue_from-Keeps (some (tool_result _)) s = start_run-Keeps [] false s

start_continue-Keeps : (s : System) → Keeps s (start_continue s).0
unfolding start_continue
start_continue-Keeps s = elim (Option-cases (owner s.agent.state.phase)) [
  | inl e ↦ rw (e, start_continue) (continue_from-Keeps (last? s.agent.state.messages) s)
  | inr (n, e) ↦ rw (e, start_continue) (keeps_same s.runs)
]

start_compaction-Keeps : (s : System) → Keeps s (start_compaction s).0
unfolding start_compaction
start_compaction-Keeps s = elim (Option-cases (owner s.agent.state.phase)) [
  | inr (n, e) ↦ rw (e, start_compaction) (keeps_same s.runs)
  | inl e ↦ elim (Option-cases s.agent.compactor) [
    | inl q ↦ rw (e, q, start_compaction) (keeps_same s.runs)
    | inr (compactor, q) ↦ rw (e, q, start_compaction) (keeps_append s.runs _)
  ]
]

commit_compaction-runs :
    (replacement : List AgentMessage) (h : ℕ) (s : System)
    → (commit_compaction replacement h s).0.runs ≡ s.runs
unfolding commit_compaction commit_replacement
commit_compaction-runs replacement h s = ground arith

while_idle-runs :
    (change : System → System × Option CoreError) (s : System)
    → (change s).0.runs ≡ s.runs
    → (while_idle change s).0.runs ≡ s.runs
unfolding while_idle
while_idle-runs change s same = ground arith

abort_active-final : (r : Run) → is_terminal r.state.phase ≡ true → is_created r.state.phase ≡ false
abort_active-final r over = ground arith

abort_agent_run-Keeps : (s : System) → Keeps s (abort_agent_run s)
unfolding abort_agent_run
abort_agent_run-Keeps s = elim (Option-cases s.agent.active) [
  | inl e ↦ rw (e, abort_agent_run) (keeps_same s.runs)
  | inr (a, e) ↦ elim (Option-cases (get_elem? s.runs a.handle)) [
    | inl g ↦ rw (e, g, abort_agent_run) (keeps_same s.runs)
    | inr (r, g) ↦ elim (Bool-cases (is_created r.state.phase)) [
      | inl new ↦
          rw (e, g, new, abort_agent_run)
            (keeps_set s.runs a.handle r _ g (λ over. let n = abort_active-final r over in cc))
      | inr old ↦
          rw (e, g, old, abort_agent_run)
            (keeps_set s.runs a.handle r _ g (λ over. record {
              same_id = refl;
              same_phase = refl;
              same_reason = refl;
              same_error = refl;
            }))
    ]
  ]
]

policy-runs :
    (policy : AutomaticCompactionPolicy) (s : System)
    → (replace_automatic_compaction policy s).0.runs ≡ s.runs
unfolding replace_automatic_compaction
policy-runs policy s = elim (Option-cases (validate_policy policy)) [
  | inl e ↦ rw (e, replace_automatic_compaction) (while_idle-runs (set_policy policy) s refl)
  | inr (bad, e) ↦ rw (e, replace_automatic_compaction) refl
]

restore_idle-runs :
    (messages : List AgentMessage) (s : System) → (restore_idle messages s).0.runs ≡ s.runs
unfolding restore_idle
restore_idle-runs messages s = ground arith

runs-Keeps : (s s' : System) → s'.runs ≡ s.runs → Keeps s s'
runs-Keeps s s' same = rw same (keeps_same s.runs)

step-Keeps : (op : AgentOp) (s : System) → Keeps s (step op s)
unfolding step
step-Keeps (prompt_op prompt) s = unfold start_prompt in start_run-Keeps (prompt ∷ []) false s
step-Keeps (steer_op content) s = unfold enqueue_steering in keeps_same s.runs
step-Keeps (follow_up_op content) s = unfold enqueue_follow_up in keeps_same s.runs
step-Keeps continue_op s = start_continue-Keeps s
step-Keeps compact_op s = start_compaction-Keeps s
step-Keeps abort_op s = abort_agent_run-Keeps s
step-Keeps reset_op s =
    unfold reset reset_idle in runs-Keeps s (reset s).0 (while_idle-runs reset_idle s refl)
step-Keeps clear_queues_op s = unfold clear_all_queues in keeps_same s.runs
step-Keeps clear_steering_op s = unfold clear_steering_queue in keeps_same s.runs
step-Keeps clear_follow_up_op s = unfold clear_follow_up_queue in keeps_same s.runs
step-Keeps (steering_mode_op mode) s = keeps_same s.runs
step-Keeps (follow_up_mode_op mode) s = keeps_same s.runs
step-Keeps (restore_op messages) s =
    unfold restore_messages in
    runs-Keeps s (restore_messages messages s).0
      (while_idle-runs (restore_idle messages) s (restore_idle-runs messages s))
step-Keeps (provider_op model provider) s =
    unfold replace_model_provider in
    runs-Keeps s (replace_model_provider model provider s).0
      (while_idle-runs (set_provider model provider) s refl)
step-Keeps (thinking_op level) s =
    unfold replace_thinking_level in
    runs-Keeps s (replace_thinking_level level s).0
      (while_idle-runs (set_thinking_level level) s refl)
step-Keeps (configuration_op configuration) s =
    unfold replace_configuration in
    runs-Keeps s (replace_configuration configuration s).0
      (while_idle-runs (set_configuration configuration) s refl)
step-Keeps (policy_op policy) s =
    runs-Keeps s (replace_automatic_compaction policy s).0 (policy-runs policy s)
step-Keeps (start_turn_op turn_id h) s =
    on_run-Keeps (start_turn turn_id) h s (start_turn-final turn_id)
step-Keeps (advance_turn_op turn_id h) s =
    on_run-Keeps (advance_turn turn_id) h s (advance_turn-final turn_id)
step-Keeps (begin_settlement_op h) s = on_run-Keeps begin_settlement h s begin_settlement-final
step-Keeps (record_event_op kind h) s =
    on_run-Keeps (record_event kind) h s (record_event-final kind)
step-Keeps (succeed_op reason h) s =
    unfold succeed in finish-Keeps RunPhase.succeeded reason none h s
step-Keeps (fail_op message h) s =
    unfold fail in finish-Keeps RunPhase.failed StopReason.error (some message) h s
step-Keeps (settle_cancelled_op h) s =
    unfold settle_cancelled in finish-Keeps RunPhase.cancelled StopReason.cancelled none h s
step-Keeps (settle_aborted_op h) s =
    unfold settle_aborted in finish-Keeps RunPhase.cancelled StopReason.aborted none h s
step-Keeps (run_abort_op h) s = abort-Keeps h s
step-Keeps (drop_op h) s = drop_handle-Keeps h s
step-Keeps (commit_op replacement h) s =
    runs-Keeps s (commit_compaction replacement h s).0 (commit_compaction-runs replacement h s)

-- Once a run has settled, no sequence of calls on the agent or on any handle, its own included,
-- changes its ID, its phase, its stop reason or its error.
pub perform-KeepsOutcomes :
    (ops : List AgentOp) (s : System) → KeepsOutcomes s.runs (perform ops s).runs
unfolding perform
perform-KeepsOutcomes [] s = keeps_same s.runs
perform-KeepsOutcomes (op ∷ ops) s =
    keeps_trans s.runs (step op s).runs (perform ops (step op s)).runs (step-Keeps op s)
      (perform-KeepsOutcomes ops (step op s))
