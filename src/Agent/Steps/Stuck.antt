-- ===== src/Agent/Steps/Stuck.antt =====
-- run/mod.rs: `RunHandle::abort` releases the lock of the run before it takes that of the agent. What
-- happens where the run is settled in between.
use pi_agent_core_rs.Prelude.{
  ℕ, ◌≡◌, refl, inl, inr, Bool, true, false, List, [], ◌∷◌, Option, none, some, Text, get_elem?,
  Option-cases, Bool-cases,
}
use pi_agent_core_rs.State.Types.{
  AgentMessage, AgentPhase, cancelling, RunPhase, is_terminal, StopReason,
}
use pi_agent_core_rs.Compaction.Policy.{AutomaticCompactionPolicy, validate_policy}
use pi_agent_core_rs.Compaction.Validate.{validate_messages}
use pi_agent_core_rs.Agent.State.{CoreError, Run, ActiveRun, System, set_run, replace_messages}
use pi_agent_core_rs.Agent.Run.{
  Change, start_turn, advance_turn, begin_settlement, record_event, on_run, finish, succeed, fail,
  settle_cancelled, settle_aborted, abort_run, abort_first, abort_second, abort_agent, abort,
  drop_handle,
}
use pi_agent_core_rs.Agent.Start.{
  owner, start_run, start_prompt, start_continue, start_compaction, runs_as, commit_replacement,
  commit_compaction,
}
use pi_agent_core_rs.Agent.Control.{
  set_provider, set_thinking_level, set_configuration, set_policy, restore_idle, reset_idle,
  abort_agent_run, while_idle, reset, restore_messages, replace_model_provider,
  replace_thinking_level, replace_configuration, replace_automatic_compaction, enqueue_steering,
  enqueue_follow_up, clear_all_queues, clear_steering_queue, clear_follow_up_queue,
}
use pi_agent_core_rs.Agent.Steps.{
  AgentOp, prompt_op, steer_op, follow_up_op, continue_op, compact_op, abort_op, reset_op,
  clear_queues_op, clear_steering_op, clear_follow_up_op, steering_mode_op, follow_up_mode_op,
  settle_aborted_op, restore_op, provider_op, thinking_op, configuration_op, policy_op,
  start_turn_op, advance_turn_op, begin_settlement_op, settle_cancelled_op, run_abort_op, drop_op,
  record_event_op, succeed_op, fail_op, commit_op, step, perform,
}
use pi_agent_core_rs.Agent.Steps.Owned.{set-cell}
use pi_agent_core_rs.Agent.Steps.Outcomes.{
  SameOutcome, start_turn-final, advance_turn-final, begin_settlement-final, record_event-final,
}

-- Every run of the store has settled.
abbrev pub AllSettled : List Run → Type 0
AllSettled rs = (h : ℕ) (r : Run) → get_elem? rs h ≡ some r → is_terminal r.state.phase ≡ true

pub record StuckAt (id : ℕ) (active : Option ActiveRun) (phase : AgentPhase) (rs : List Run)
    : Type 0 where
  pub phase_kept : phase ≡ cancelling id
  pub no_marker : active ≡ none
  pub settled : AllSettled rs

-- The agent is cancelling a run, but has no active run, and no run is left that could settle.
abbrev pub IsStuck : ℕ → System → Type 0
IsStuck id s = StuckAt id s.agent.active s.agent.state.phase s.runs

set-AllSettled :
    (rs : List Run) (h : ℕ) (r r' : Run)
    → get_elem? rs h ≡ some r
    → is_terminal r'.state.phase ≡ true
    → AllSettled rs
    → AllSettled (set_run h r' rs)
set-AllSettled rs h r r' e over all j q g = elim (set-cell rs h j r r' q e g) [
  | inl (p, w) ↦ rw w over
  | inr old ↦ all j q old
]

pub owner-stuck : (id : ℕ) (s : System) → IsStuck id s → owner s.agent.state.phase ≡ some id
owner-stuck id s k = rw k.phase_kept refl

on_run-IsStuck :
    (id : ℕ) (method : Run → Change) (h : ℕ) (s : System)
    → ((r : Run) → is_terminal r.state.phase ≡ true → SameOutcome r (method r).0)
    → IsStuck id s
    → IsStuck id (on_run method h s).0
unfolding on_run
on_run-IsStuck id method h s same k = elim (Option-cases (get_elem? s.runs h)) [
  | inl e ↦ rw (e, on_run) k
  | inr (r, e) ↦
      let over = k.settled h r e in
      rw (e, on_run)
        (record {
          phase_kept = k.phase_kept;
          no_marker = k.no_marker;
          settled =
              set-AllSettled s.runs h r (method r).0 e (rw ((same r over).same_phase) over)
                k.settled;
        })
]

finish-IsStuck :
    (id : ℕ) (phase : RunPhase) (reason : StopReason) (error : Option Text) (h : ℕ) (s : System)
    → IsStuck id s
    → IsStuck id (finish phase reason error h s).0
unfolding finish
finish-IsStuck id phase reason error h s k = elim (Option-cases (get_elem? s.runs h)) [
  | inl e ↦ rw (e, finish) k
  | inr (r, e) ↦ rw (e, k.settled h r e, finish) k
]

abort-IsStuck : (id h : ℕ) (s : System) → IsStuck id s → IsStuck id (abort h s)
unfolding abort abort_first abort_second abort_run abort_agent
abort-IsStuck id h s k = elim (Option-cases (get_elem? s.runs h)) [
  | inl e ↦ rw (e, abort, abort_first) k
  | inr (r, e) ↦
      let over = k.settled h r e in
      let run : Run = record r { is_cancelled = true } in
      rw (e, over, abort, abort_first)
        (record {
          phase_kept = k.phase_kept;
          no_marker = k.no_marker;
          settled = set-AllSettled s.runs h r run e over k.settled;
        })
]

drop_handle-IsStuck : (id h : ℕ) (s : System) → IsStuck id s → IsStuck id (drop_handle h s)
unfolding drop_handle
drop_handle-IsStuck id h s k = elim (Option-cases (get_elem? s.runs h)) [
  | inl e ↦ rw (e, drop_handle) k
  | inr (r, e) ↦ rw (e, k.settled h r e, drop_handle) k
]

while_idle-IsStuck :
    (id : ℕ) (change : System → System × Option CoreError) (s : System)
    → IsStuck id s
    → IsStuck id (while_idle change s).0
unfolding while_idle
while_idle-IsStuck id change s k = rw (owner-stuck id s k, while_idle) k

policy-IsStuck :
    (id : ℕ) (policy : AutomaticCompactionPolicy) (s : System)
    → IsStuck id s
    → IsStuck id (replace_automatic_compaction policy s).0
unfolding replace_automatic_compaction
policy-IsStuck id policy s k = elim (Option-cases (validate_policy policy)) [
  | inl e ↦ rw (e, replace_automatic_compaction) (while_idle-IsStuck id (set_policy policy) s k)
  | inr (bad, e) ↦ rw (e, replace_automatic_compaction) k
]

commit-IsStuck :
    (id : ℕ) (replacement : List AgentMessage) (h : ℕ) (s : System)
    → IsStuck id s
    → IsStuck id (commit_compaction replacement h s).0
unfolding commit_compaction commit_replacement replace_messages
commit-IsStuck id replacement h s k = elim (Option-cases (validate_messages replacement)) [
  | inr (bad, v) ↦ rw (v, commit_compaction) k
  | inl v ↦ elim (Option-cases (get_elem? s.runs h)) [
    | inl e ↦ rw (v, commit_compaction, e, commit_replacement) k
    | inr (r, e) ↦ elim (Bool-cases r.is_cancelled) [
      | inl gone ↦ rw (v, commit_compaction, e, gone, commit_replacement) k
      | inr kept ↦ elim (Bool-cases (runs_as r.state.id s.agent.state.phase)) [
        | inl own ↦ rw (v, commit_compaction, e, kept, own, commit_replacement) k
        | inr other ↦ rw (v, commit_compaction, e, kept, other, commit_replacement) k
      ]
    ]
  ]
]

start_run-IsStuck :
    (id : ℕ) (contents : List Text) (skip : Bool) (s : System)
    → IsStuck id s
    → IsStuck id (start_run contents skip s).0
unfolding start_run
start_run-IsStuck id contents skip s k = rw (owner-stuck id s k, start_run) k

start_continue-IsStuck : (id : ℕ) (s : System) → IsStuck id s → IsStuck id (start_continue s).0
unfolding start_continue
start_continue-IsStuck id s k = rw (owner-stuck id s k, start_continue) k

start_compaction-IsStuck : (id : ℕ) (s : System) → IsStuck id s → IsStuck id (start_compaction s).0
unfolding start_compaction
start_compaction-IsStuck id s k = rw (owner-stuck id s k, start_compaction) k

abort_agent_run-IsStuck : (id : ℕ) (s : System) → IsStuck id s → IsStuck id (abort_agent_run s)
unfolding abort_agent_run
abort_agent_run-IsStuck id s k = rw (k.no_marker, abort_agent_run) k

step-IsStuck : (id : ℕ) (op : AgentOp) (s : System) → IsStuck id s → IsStuck id (step op s)
unfolding step
step-IsStuck id (prompt_op prompt) s k =
    unfold start_prompt in start_run-IsStuck id (prompt ∷ []) false s k
step-IsStuck id (steer_op content) s k = unfold enqueue_steering in k
step-IsStuck id (follow_up_op content) s k = unfold enqueue_follow_up in k
step-IsStuck id continue_op s k = start_continue-IsStuck id s k
step-IsStuck id compact_op s k = start_compaction-IsStuck id s k
step-IsStuck id abort_op s k = abort_agent_run-IsStuck id s k
step-IsStuck id reset_op s k = unfold reset in while_idle-IsStuck id reset_idle s k
step-IsStuck id clear_queues_op s k = unfold clear_all_queues in k
step-IsStuck id clear_steering_op s k = unfold clear_steering_queue in k
step-IsStuck id clear_follow_up_op s k = unfold clear_follow_up_queue in k
step-IsStuck id (steering_mode_op mode) s k = k
step-IsStuck id (follow_up_mode_op mode) s k = k
step-IsStuck id (restore_op messages) s k =
    unfold restore_messages in while_idle-IsStuck id (restore_idle messages) s k
step-IsStuck id (provider_op model provider) s k =
    unfold replace_model_provider in while_idle-IsStuck id (set_provider model provider) s k
step-IsStuck id (thinking_op level) s k =
    unfold replace_thinking_level in while_idle-IsStuck id (set_thinking_level level) s k
step-IsStuck id (configuration_op configuration) s k =
    unfold replace_configuration in while_idle-IsStuck id (set_configuration configuration) s k
step-IsStuck id (policy_op policy) s k = policy-IsStuck id policy s k
step-IsStuck id (start_turn_op turn_id h) s k =
    on_run-IsStuck id (start_turn turn_id) h s (start_turn-final turn_id) k
step-IsStuck id (advance_turn_op turn_id h) s k =
    on_run-IsStuck id (advance_turn turn_id) h s (advance_turn-final turn_id) k
step-IsStuck id (begin_settlement_op h) s k =
    on_run-IsStuck id begin_settlement h s begin_settlement-final k
step-IsStuck id (record_event_op kind h) s k =
    on_run-IsStuck id (record_event kind) h s (record_event-final kind) k
step-IsStuck id (succeed_op reason h) s k =
    unfold succeed in finish-IsStuck id RunPhase.succeeded reason none h s k
step-IsStuck id (fail_op message h) s k =
    unfold fail in finish-IsStuck id RunPhase.failed StopReason.error (some message) h s k
step-IsStuck id (settle_cancelled_op h) s k =
    unfold settle_cancelled in finish-IsStuck id RunPhase.cancelled StopReason.cancelled none h s k
step-IsStuck id (settle_aborted_op h) s k =
    unfold settle_aborted in finish-IsStuck id RunPhase.cancelled StopReason.aborted none h s k
step-IsStuck id (run_abort_op h) s k = abort-IsStuck id h s k
step-IsStuck id (drop_op h) s k = drop_handle-IsStuck id h s k
step-IsStuck id (commit_op replacement h) s k = commit-IsStuck id replacement h s k

pub perform-IsStuck :
    (id : ℕ) (ops : List AgentOp) (s : System) → IsStuck id s → IsStuck id (perform ops s)
unfolding perform
perform-IsStuck id [] s k = k
perform-IsStuck id (op ∷ ops) s k = perform-IsStuck id ops (step op s) (step-IsStuck id op s k)
