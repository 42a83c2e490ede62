-- ===== src/Agent/Steps/Reachable.antt =====
-- Whatever calls are made on a new agent, at most one run has not settled, and it owns the agent.
use pi_agent_core_rs.Prelude.{
  ℕ, ◌≡◌, refl, inl, inr, true, false, List, [], ◌∷◌, Option, none, some, arith, ◌==◌, get_elem?,
  Option-cases, Bool-cases,
}
use pi_agent_core_rs.State.Types.{AgentMessage, AgentPhase, cancelling, RunPhase, StopReason}
use pi_agent_core_rs.Compaction.Policy.{AutomaticCompactionPolicy, validate_policy}
use pi_agent_core_rs.Compaction.Validate.{validate_messages}
use pi_agent_core_rs.Agent.State.{
  CoreError, Run, ActiveRun, AgentConfiguration, System, built, replace_messages,
}
use pi_agent_core_rs.Agent.Run.{
  is_created, start_turn, advance_turn, begin_settlement, record_event, succeed, fail,
  settle_cancelled, settle_aborted,
}
use pi_agent_core_rs.Agent.Start.{owner, start_prompt}
use pi_agent_core_rs.Agent.Control.{
  set_provider, set_thinking_level, set_configuration, set_policy, abort_agent_run, while_idle,
  reset_idle, restore_idle, reset, restore_messages, replace_model_provider, replace_thinking_level,
  replace_configuration, replace_automatic_compaction, enqueue_steering, enqueue_follow_up,
  clear_all_queues, clear_steering_queue, clear_follow_up_queue,
}
use pi_agent_core_rs.Agent.Steps.{
  AgentOp, prompt_op, steer_op, follow_up_op, continue_op, compact_op, abort_op, reset_op,
  clear_queues_op, clear_steering_op, clear_follow_up_op, steering_mode_op, follow_up_mode_op,
  settle_aborted_op, restore_op, provider_op, thinking_op, configuration_op, policy_op,
  start_turn_op, advance_turn_op, begin_settlement_op, settle_cancelled_op, run_abort_op, drop_op,
  record_event_op, succeed_op, fail_op, commit_op, step, perform,
}
use pi_agent_core_rs.Agent.Steps.Owned.{IsLive, PhaseOf, IsOwned, set_run-IsOwned, end-IsOwned}
use pi_agent_core_rs.Agent.Steps.Consistent.{
  IsConsistent, on_run-IsConsistent, start_turn-SameLife, advance_turn-SameLife,
  begin_settlement-SameLife, record_event-SameLife, finish-IsConsistent, abort-IsConsistent,
  drop_handle-IsConsistent, start_run-IsConsistent, start_continue-IsConsistent,
  start_compaction-IsConsistent, commit_compaction-IsConsistent,
}

-- Cancelling what runs already.
cancelling_again :
    (a : ActiveRun) (phase : AgentPhase) (rs : List Run)
    → IsOwned (some a) phase rs
    → IsOwned (some a) (cancelling a.id) rs
cancelling_again a phase rs o = record {
  owns = (inr refl, o.owns.1, o.owns.2, o.owns.3, o.owns.4);
  only = o.only;
}

same_number : (n : ℕ) → (n == n) ≡ true
same_number n = ground arith

abort_owned-IsConsistent :
    (s : System) (a : ActiveRun) (r : Run)
    → s.agent.active ≡ some a
    → get_elem? s.runs a.handle ≡ some r
    → IsLive r
    → PhaseOf a.id s.agent.state.phase
    → IsOwned (some a) s.agent.state.phase s.runs
    → IsConsistent (abort_agent_run s)
unfolding abort_agent_run
abort_owned-IsConsistent s a r e g live p o =
    let run : Run = record { state = r.state; is_cancelled = true } in
    let again =
      set_run-IsOwned (some a) (cancelling a.id) s.runs a.handle r run g (refl, refl)
        (cancelling_again a s.agent.state.phase s.runs o) in
    elim (Bool-cases (is_created r.state.phase)) [
      | inl new ↦
          rw (e, g, new, e, same_number a.id, abort_agent_run)
            (end-IsOwned (some a) s.agent.state.phase s.runs a.handle r _ g live refl o)
      | inr old ↦ elim p [
        | inl run ↦ rw (e, g, old, e, run, abort_agent_run) again
        | inr cancel ↦ rw (e, g, old, e, cancel, abort_agent_run) again
      ]
    ]

abort_agent_run-IsConsistent : (s : System) → IsConsistent s → IsConsistent (abort_agent_run s)
unfolding abort_agent_run
abort_agent_run-IsConsistent s c = elim (Option-cases s.agent.active) [
  | inl e ↦ rw (e, abort_agent_run) c
  | inr (a, e) ↦
      let o = rw e at c in
      let (p, r, g, id, live) = o.owns in abort_owned-IsConsistent s a r e g live p o
]

-- A change that an idle agent accepts, and that does not concern runs.
while_idle-IsConsistent :
    (change : System → System × Option CoreError) (s : System)
    → (IsConsistent s → IsConsistent (change s).0)
    → IsConsistent s
    → IsConsistent (while_idle change s).0
unfolding while_idle
while_idle-IsConsistent change s keeps c = elim (Option-cases (owner s.agent.state.phase)) [
  | inl e ↦ rw (e, while_idle) (keeps c)
  | inr (n, e) ↦ rw (e, while_idle) c
]

restore_idle-IsConsistent :
    (messages : List AgentMessage) (s : System)
    → IsConsistent s
    → IsConsistent (restore_idle messages s).0
unfolding restore_idle replace_messages
restore_idle-IsConsistent messages s c = elim (Option-cases (validate_messages messages)) [
  | inl e ↦ rw (e, restore_idle) c
  | inr (bad, e) ↦ rw (e, restore_idle) c
]

reset-IsConsistent : (s : System) → IsConsistent s → IsConsistent (reset s).0
unfolding reset reset_idle
reset-IsConsistent s c = while_idle-IsConsistent reset_idle s (λ k. k) c

policy-IsConsistent :
    (policy : AutomaticCompactionPolicy) (s : System)
    → IsConsistent s
    → IsConsistent (replace_automatic_compaction policy s).0
unfolding replace_automatic_compaction
policy-IsConsistent policy s c = elim (Option-cases (validate_policy policy)) [
  | inl e ↦
      rw (e, replace_automatic_compaction)
        (while_idle-IsConsistent (set_policy policy) s (λ k. k) c)
  | inr (bad, e) ↦ rw (e, replace_automatic_compaction) c
]

-- Every call leaves a consistent system consistent.
pub step-IsConsistent : (op : AgentOp) (s : System) → IsConsistent s → IsConsistent (step op s)
unfolding step
step-IsConsistent (prompt_op prompt) s c =
    unfold start_prompt in start_run-IsConsistent (prompt ∷ []) false s c
step-IsConsistent (steer_op content) s c = unfold enqueue_steering in c
step-IsConsistent (follow_up_op content) s c = unfold enqueue_follow_up in c
step-IsConsistent continue_op s c = start_continue-IsConsistent s c
step-IsConsistent compact_op s c = start_compaction-IsConsistent s c
step-IsConsistent abort_op s c = abort_agent_run-IsConsistent s c
step-IsConsistent reset_op s c = reset-IsConsistent s c
step-IsConsistent clear_queues_op s c = unfold clear_all_queues in c
step-IsConsistent clear_steering_op s c = unfold clear_steering_queue in c
step-IsConsistent clear_follow_up_op s c = unfold clear_follow_up_queue in c
step-IsConsistent (steering_mode_op mode) s c = c
step-IsConsistent (follow_up_mode_op mode) s c = c
step-IsConsistent (restore_op messages) s c =
    unfold restore_messages in
    while_idle-IsConsistent (restore_idle messages) s (restore_idle-IsConsistent messages s) c
step-IsConsistent (provider_op model provider) s c =
    unfold replace_model_provider in
    while_idle-IsConsistent (set_provider model provider) s (λ k. k) c
step-IsConsistent (thinking_op level) s c =
    unfold replace_thinking_level in while_idle-IsConsistent (set_thinking_level level) s (λ k. k) c
step-IsConsistent (configuration_op configuration) s c =
    unfold replace_configuration in
    while_idle-IsConsistent (set_configuration configuration) s (λ k. k) c
step-IsConsistent (policy_op policy) s c = policy-IsConsistent policy s c
step-IsConsistent (start_turn_op turn_id h) s c =
    on_run-IsConsistent (start_turn turn_id) h s (start_turn-SameLife turn_id) c
step-IsConsistent (advance_turn_op turn_id h) s c =
    on_run-IsConsistent (advance_turn turn_id) h s (advance_turn-SameLife turn_id) c
step-IsConsistent (begin_settlement_op h) s c =
    on_run-IsConsistent begin_settlement h s begin_settlement-SameLife c
step-IsConsistent (record_event_op kind h) s c =
    on_run-IsConsistent (record_event kind) h s (record_event-SameLife kind) c
step-IsConsistent (succeed_op reason h) s c =
    unfold succeed in finish-IsConsistent RunPhase.succeeded reason none h s refl c
step-IsConsistent (fail_op message h) s c =
    unfold fail in finish-IsConsistent RunPhase.failed StopReason.error (some message) h s refl c
step-IsConsistent (settle_cancelled_op h) s c =
    unfold settle_cancelled in
    finish-IsConsistent RunPhase.cancelled StopReason.cancelled none h s refl c
step-IsConsistent (settle_aborted_op h) s c =
    unfold settle_aborted in
    finish-IsConsistent RunPhase.cancelled StopReason.aborted none h s refl c
step-IsConsistent (run_abort_op h) s c = abort-IsConsistent h s c
step-IsConsistent (drop_op h) s c = drop_handle-IsConsistent h s c
step-IsConsistent (commit_op replacement h) s c = commit_compaction-IsConsistent replacement h s c

pub perform-IsConsistent :
    (ops : List AgentOp) (s : System) → IsConsistent s → IsConsistent (perform ops s)
unfolding perform
perform-IsConsistent [] s c = c
perform-IsConsistent (op ∷ ops) s c =
    perform-IsConsistent ops (step op s) (step-IsConsistent op s c)

pub built-IsConsistent :
    (configuration : AgentConfiguration) (provider compactor : Option ℕ)
    → IsConsistent (built configuration provider compactor)
built-IsConsistent configuration provider compactor = record {
  owns = refl;
  only = λ h r g live. cc;
}
