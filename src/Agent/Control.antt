-- ===== src/Agent/Control.antt =====
-- agent/mod.rs: the methods of `Agent` that cancel its run, and those that only an idle agent accepts.
-- `none` is `Ok(())`.
use pi_agent_core_rs.Prelude.{
  ℕ, true, List, [], Option, none, some, Text, ◌==◌, if◌then◌else◌, get_elem?,
}
use pi_agent_core_rs.Queue.{QueueMode, push, clear, clear_queues}
use pi_agent_core_rs.State.Types.{
  ModelDescriptor, ThinkingLevel, AgentMessage, AgentPhase, idle, cancelling, RunPhase, StopReason,
}
use pi_agent_core_rs.State.Accounting.{no_accounting}
use pi_agent_core_rs.Compaction.Policy.{AutomaticCompactionPolicy, validate_policy}
use pi_agent_core_rs.Compaction.Validate.{validate_messages}
use pi_agent_core_rs.Agent.State.{
  CoreError, active_run, compaction, invalid_automatic_compaction_policy, AgentState,
  replace_messages, RunState, Run, ActiveRun, AgentConfiguration, Agent, System,
}
use pi_agent_core_rs.Agent.Run.{is_created, clear_transient, write}
use pi_agent_core_rs.Agent.Start.{owner, set_queues}

abbrev set_agent : Agent → System → System
set_agent agent s = record s { agent = agent }

abbrev set_state : AgentState → System → System
set_state state s =
    let agent : Agent = record s.agent { state = state } in record s { agent = agent }

-- `if !matches!(state.phase, AgentPhase::Idle) { state.phase = AgentPhase::Cancelling(active.id) }`.
unless_idle : ℕ → AgentPhase → AgentPhase
unless_idle id idle = idle
unless_idle id _ = cancelling id

-- `active_slot.take()` if it still holds the run.
release : ℕ → Option ActiveRun → Option ActiveRun
release id none = none
release id (some current) = if current.id == id then none else some current

abort_active : ActiveRun → Run → System → System
unfolding unless_idle release clear_transient
abort_active active r s =
    let now = is_created r.state.phase in
    let cancelled : RunState = record r.state {
      phase = RunPhase.cancelled;
      stop_reason = some StopReason.cancelled;
    } in
    let run : Run = record { state = if now then cancelled else r.state; is_cancelled = true } in
    let phase = if now then idle else unless_idle active.id s.agent.state.phase in
    let state : AgentState = record (clear_transient s.agent.state) { phase = phase } in
    let agent : Agent = record s.agent {
      state = state;
      queues = clear_queues s.agent.queues;
      active = if now then release active.id s.agent.active else s.agent.active;
    } in
    record (write active.handle run s) { agent = agent }

-- `Agent::abort`, where no other call comes in between.
unfoldable pub abort_agent_run : System → System
unfolding abort_active
abort_agent_run s = elim s.agent.active [
  | none ↦ s
  | some active ↦ elim (get_elem? s.runs active.handle) [
    | none ↦ s
    | some r ↦ abort_active active r s
  ]
]

-- A change that an idle agent accepts and any other refuses with the run that owns it.
unfoldable pub while_idle :
    (System → System × Option CoreError) → System → System × Option CoreError
while_idle change s = elim (owner s.agent.state.phase) [
  | some run_id ↦ (s, some (active_run run_id))
  | none ↦ change s
]

clear_all : System → System
clear_all s = set_queues (clear_queues s.agent.queues) s

unfoldable pub reset_idle : System → System × Option CoreError
unfolding clear_all clear_transient
reset_idle s =
    let state : AgentState = record (clear_transient s.agent.state) {
      messages = [];
      host_messages = [];
      last_error = none;
      accounting = no_accounting;
    } in
    (clear_all (set_state state s), none)

unfoldable pub reset : System → System × Option CoreError
reset = while_idle reset_idle

unfoldable pub restore_idle : List AgentMessage → System → System × Option CoreError
unfolding clear_all clear_transient
restore_idle messages s =
    let replaced = replace_messages messages s.agent.state in
    let state : AgentState = record (clear_transient replaced) {
      last_error = none;
      accounting = no_accounting;
    } in
    elim (validate_messages messages) [
      | some e ↦ (s, some (compaction e))
      | none ↦ (clear_all (set_state state s), none)
    ]

unfoldable pub restore_messages : List AgentMessage → System → System × Option CoreError
restore_messages messages = while_idle (restore_idle messages)

abbrev pub set_provider : ModelDescriptor → ℕ → System → System × Option CoreError
set_provider model provider s =
    let state : AgentState = record s.agent.state { model = some model } in
    let agent : Agent = record s.agent { state = state; provider = some provider } in
    (set_agent agent s, none)

unfoldable pub replace_model_provider : ModelDescriptor → ℕ → System → System × Option CoreError
replace_model_provider model provider = while_idle (set_provider model provider)

abbrev pub set_thinking_level : ThinkingLevel → System → System × Option CoreError
set_thinking_level level s =
    let state : AgentState = record s.agent.state { thinking_level = level } in
    (set_state state s, none)

unfoldable pub replace_thinking_level : ThinkingLevel → System → System × Option CoreError
replace_thinking_level level = while_idle (set_thinking_level level)

abbrev pub set_configuration : AgentConfiguration → System → System × Option CoreError
set_configuration configuration s =
    let state : AgentState = record s.agent.state { system_prompt = configuration.system_prompt } in
    let agent : Agent = record s.agent { state = state; configuration = configuration } in
    (set_agent agent s, none)

unfoldable pub replace_configuration : AgentConfiguration → System → System × Option CoreError
replace_configuration configuration = while_idle (set_configuration configuration)

abbrev pub set_policy : AutomaticCompactionPolicy → System → System × Option CoreError
set_policy policy s =
    let agent : Agent = record s.agent { automatic_compaction = policy } in
    (set_agent agent s, none)

-- The policy is validated before the phase is looked at.
unfoldable pub replace_automatic_compaction :
    AutomaticCompactionPolicy → System → System × Option CoreError
replace_automatic_compaction policy s =
    let changed = while_idle (set_policy policy) s in
    elim (validate_policy policy) [
      | some e ↦ (s, some (invalid_automatic_compaction_policy e))
      | none ↦ changed
    ]

-- `enqueue_steering` and `enqueue_follow_up`, with the sequence of the message.
unfoldable pub enqueue_steering : Text → System → System × ℕ
enqueue_steering content s =
    let (steering, sequence) = push content s.agent.queues.steering in
    (set_queues (record s.agent.queues { steering = steering }) s, sequence)

unfoldable pub enqueue_follow_up : Text → System → System × ℕ
enqueue_follow_up content s =
    let (follow_up, sequence) = push content s.agent.queues.follow_up in
    (set_queues (record s.agent.queues { follow_up = follow_up }) s, sequence)

unfoldable pub clear_all_queues : System → System
unfolding clear_all
clear_all_queues = clear_all

-- `clear_steering_queue` and `clear_follow_up_queue`.
unfoldable pub clear_steering_queue : System → System
clear_steering_queue s =
    set_queues (record s.agent.queues { steering = clear s.agent.queues.steering }) s

unfoldable pub clear_follow_up_queue : System → System
clear_follow_up_queue s =
    set_queues (record s.agent.queues { follow_up = clear s.agent.queues.follow_up }) s

abbrev pub set_steering_mode : QueueMode → System → System
set_steering_mode mode s =
    let agent : Agent = record s.agent { steering_mode = mode } in set_agent agent s

abbrev pub set_follow_up_mode : QueueMode → System → System
set_follow_up_mode mode s =
    let agent : Agent = record s.agent { follow_up_mode = mode } in set_agent agent s
