-- ===== src/Agent/Start.antt =====
-- agent/mod.rs and compaction.rs: the methods of `Agent` that reserve it for a run, each of them one
-- step, and the commit of a compaction.
use pi_agent_core_rs.Prelude.{
  ℕ, ◌+◌, ◌%◌, ◌^◌, Bool, true, false, List, [], ◌∷◌, ◌++◌, Option, none, some, Text, codes,
  sat_add, ◌==◌, if◌then◌else◌, length, is_empty, get_elem?, last?, map,
}
use pi_agent_core_rs.Queue.{QueuedMessage, AgentQueues, drain}
use pi_agent_core_rs.State.Types.{
  AgentMessage, user, assistant, tool_result, AgentPhase, idle, running, cancelling, RunPhase,
}
use pi_agent_core_rs.Compaction.Validate.{validate_messages}
use pi_agent_core_rs.Agent.State.{
  CoreError, active_run, invalid_transition, cancelled, compaction, missing_compactor, AgentState,
  allocate_message_id, replace_messages, RunState, created_run, Run, ActiveRun, AgentConfiguration,
  Agent, System,
}
use pi_agent_core_rs.Agent.Run.{clear_transient}

-- `RunHandle`: the cell of the run, and what it captured when it was started.
pub record RunHandle : Type 0 where
  pub cell : ℕ
  pub initial_messages : List AgentMessage
  pub message_start_index : ℕ
  pub skip_initial_steering : Bool
  pub configuration : AgentConfiguration

pub data Started : Type 0 where
  started : RunHandle → Started
  refused : CoreError → Started

-- The run that owns the agent, by its phase.
abbrev pub owner : AgentPhase → Option ℕ
owner idle = none
owner (running run_id) = some run_id
owner (cancelling run_id) = some run_id

-- The messages of the contents, under new IDs.
unfoldable pub allocate_users : List Text → AgentState → AgentState × List AgentMessage
unfolding allocate_message_id
allocate_users [] s = (s, [])
allocate_users (content ∷ contents) s =
    let (s', id) = allocate_message_id s in
    let (s'', messages) = allocate_users contents s' in (s'', user id content ∷ messages)

-- `next_run_id.fetch_add(1)`, which wraps.
take_number : System → System
take_number s =
    let counted : Agent = record s.agent { next_run_id = (s.agent.next_run_id + 1) % 2 ^ 64 } in
    record s { agent = counted }

-- The agent reserved for the run `id` in a new cell.
reserve : ℕ → AgentState → RunState → System → System
unfolding clear_transient
reserve id state run s =
    let claimed : AgentState = record (clear_transient state) {
      phase = running id;
      last_error = none;
    } in
    let marker : ActiveRun = record { id = id; handle = length s.runs } in
    let agent : Agent = record s.agent { state = claimed; active = some marker } in
    record { agent = agent; runs = s.runs ++ record { state = run; is_cancelled = false } ∷ [] }

start_free : List Text → Bool → ℕ → System → System × Started
unfolding allocate_users reserve
start_free contents skip id s =
    let (state, initial) = allocate_users contents s.agent.state in
    let extended : AgentState = record state { messages = state.messages ++ initial } in
    let handle : RunHandle = record {
      cell = length s.runs;
      initial_messages = initial;
      message_start_index = length s.agent.state.messages;
      skip_initial_steering = skip;
      configuration = s.agent.configuration;
    } in
    (reserve id extended (created_run id) s, started handle)

-- The number of the run is taken before the phase is looked at.
unfoldable pub start_run : List Text → Bool → System → System × Started
unfolding take_number start_free
start_run contents skip s = elim (owner s.agent.state.phase) [
  | some active ↦ (take_number s, refused (active_run active))
  | none ↦ start_free contents skip (sat_add s.agent.next_run_id 1) (take_number s)
]

unfoldable pub start_prompt : Text → System → System × Started
start_prompt prompt s = start_run (prompt ∷ []) false s

abbrev pub set_queues : AgentQueues → System → System
set_queues queues s =
    let agent : Agent = record s.agent { queues = queues } in record s { agent = agent }

unfoldable pub drain_continue_tail_messages : System → System × List QueuedMessage
drain_continue_tail_messages s =
    let (steering, first) = drain s.agent.steering_mode s.agent.queues.steering in
    let (follow_up, second) = drain s.agent.follow_up_mode s.agent.queues.follow_up in
    if is_empty first
    then (set_queues (record { steering = steering; follow_up = follow_up }) s, second)
    else (
      set_queues (record { steering = steering; follow_up = s.agent.queues.follow_up }) s,
      first,
    )

unfoldable pub continue_tail : System → System × Started
unfolding drain_continue_tail_messages
continue_tail s =
    let (s', queued) = drain_continue_tail_messages s in
    let contents = map (λ (m : QueuedMessage). m.content) queued in
    if is_empty queued
    then (s', refused (invalid_transition (codes "assistant-tail") (codes "continue")))
    else start_run contents true s'

unfoldable pub continue_from : Option AgentMessage → System → System × Started
unfolding continue_tail
continue_from none s = (s, refused (invalid_transition (codes "empty") (codes "continue")))
continue_from (some (assistant _)) s = continue_tail s
continue_from (some (user _ _)) s = start_run [] false s
continue_from (some (tool_result _)) s = start_run [] false s

unfoldable pub start_continue : System → System × Started
unfolding continue_from
start_continue s = elim (owner s.agent.state.phase) [
  | some active ↦ (s, refused (active_run active))
  | none ↦ continue_from (last? s.agent.state.messages) s
]

compaction_free : Option ℕ → ℕ → System → System × Started
unfolding reserve
compaction_free none id s = (s, refused missing_compactor)
compaction_free (some _) id s =
    let run : RunState = record (created_run id) { phase = RunPhase.running } in
    let handle : RunHandle = record {
      cell = length s.runs;
      initial_messages = [];
      message_start_index = 0;
      skip_initial_steering = true;
      configuration = s.agent.configuration;
    } in
    (reserve id s.agent.state run s, started handle)

unfoldable pub start_compaction : System → System × Started
unfolding take_number compaction_free
start_compaction s = elim (owner s.agent.state.phase) [
  | some active ↦ (take_number s, refused (active_run active))
  | none ↦ compaction_free s.agent.compactor (sat_add s.agent.next_run_id 1) (take_number s)
]

-- `matches!(state.phase, AgentPhase::Running(id) if id == run_id)`.
abbrev pub runs_as : ℕ → AgentPhase → Bool
runs_as run_id (running id) = id == run_id
runs_as run_id _ = false

commit_cell : List AgentMessage → Run → System → System × Option CoreError
commit_cell replacement r s =
    let state = replace_messages replacement s.agent.state in
    let agent : Agent = record s.agent { state = state } in
    if r.is_cancelled
    then (s, some cancelled)
    else if runs_as r.state.id s.agent.state.phase
    then (record s { agent = agent }, none)
    else (s, some cancelled)

-- `commit_replacement` by the run of a cell.
unfoldable pub commit_replacement : List AgentMessage → ℕ → System → System × Option CoreError
unfolding commit_cell
commit_replacement replacement h s = elim (get_elem? s.runs h) [
  | none ↦ (s, none)
  | some r ↦ commit_cell replacement r s
]

-- The step of `CompactionHandle::drive` behind the compactor: the replacement is validated and then
-- committed.
unfoldable pub commit_compaction : List AgentMessage → ℕ → System → System × Option CoreError
commit_compaction replacement h s = elim (validate_messages replacement) [
  | some e ↦ (s, some (compaction e))
  | none ↦ commit_replacement replacement h s
]
