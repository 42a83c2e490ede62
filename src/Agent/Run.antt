-- ===== src/Agent/Run.antt =====
-- run/mod.rs: the methods of `RunHandle` that change the state of a run or settle it. A handle is the
-- index of its cell, and an index without a cell, which no handle is, changes nothing. The agent
-- outlives its handles here, so that `self.agent.upgrade()` succeeds. `none` is `Ok(())`.
use pi_agent_core_rs.Prelude.{
  ℕ, Bool, true, false, [], ◌∷◌, ◌++◌, Option, none, some, Text, codes, sat_add, if◌then◌else◌,
  get_elem?,
}
use pi_agent_core_rs.State.Types.{
  AgentPhase, idle, cancelling, RunPhase, created, running, settling, is_terminal, StopReason, user,
}
use pi_agent_core_rs.Agent.Events.{AgentEventKind, AgentEvent}
use pi_agent_core_rs.Agent.State.{
  CoreError, invalid_transition, run_finished, AgentState, allocate_message_id, RunState, Run,
  Agent, System, set_run,
}

unfoldable pub phase_name : RunPhase → Text
phase_name created = codes "created"
phase_name running = codes "running"
phase_name settling = codes "settling"
phase_name RunPhase.succeeded = codes "succeeded"
phase_name RunPhase.failed = codes "failed"
phase_name RunPhase.cancelled = codes "cancelled"

abbrev pub is_created : RunPhase → Bool
is_created created = true
is_created _ = false

abbrev pub is_running : RunPhase → Bool
is_running running = true
is_running _ = false

-- The new contents of a cell, and the result.
abbrev pub Change : Type 0
Change = Run × Option CoreError

unfoldable pub start_turn : ℕ → Run → Change
start_turn turn_id r =
    let started : RunState = record r.state { phase = running; turn_id = some turn_id } in
    if is_created r.state.phase
    then (record r { state = started }, none)
    else (r, some (invalid_transition (phase_name r.state.phase) (codes "start_turn")))

unfoldable pub advance_turn : ℕ → Run → Change
advance_turn turn_id r =
    let advanced : RunState = record r.state { turn_id = some turn_id } in
    if is_running r.state.phase
    then (record r { state = advanced }, none)
    else (r, some (invalid_transition (phase_name r.state.phase) (codes "advance_turn")))

unfoldable pub begin_settlement : Run → Change
begin_settlement r =
    let settled : RunState = record r.state { phase = settling } in
    if is_terminal r.state.phase
    then (r, some (run_finished r.state.id))
    else (record r { state = settled }, none)

unfoldable pub record_event : AgentEventKind → Run → Change
record_event kind r =
    let count = sat_add r.state.event_count 1 in
    let event : AgentEvent = record { run_id = r.state.id; sequence = count; kind = kind } in
    let recorded : RunState = record r.state {
      event_count = count;
      events = r.state.events ++ event ∷ [];
    } in
    (record r { state = recorded }, none)

-- The transient fields that every settlement clears.
unfoldable pub clear_transient : AgentState → AgentState
clear_transient s = record s {
  partial_response = none;
  is_streaming = false;
  pending_tool_calls = [];
}

unfoldable pub settle_agent : AgentPhase → Option Text → Agent → Agent
unfolding clear_transient
settle_agent phase error a =
    let settled : AgentState = record (clear_transient a.state) {
      last_error = error;
      phase = phase;
    } in
    record a { state = settled; active = none }

abbrev pub write : ℕ → Run → System → System
write h r s = record s { runs = set_run h r s.runs }

-- A method that touches its run alone.
unfoldable pub on_run : (Run → Change) → ℕ → System → System × Option CoreError
on_run method h s = elim (get_elem? s.runs h) [
  | none ↦ (s, none)
  | some r ↦ (write h (method r).0 s, (method r).1)
]

finish_cell : RunPhase → StopReason → Option Text → ℕ → Run → System → System × Option CoreError
finish_cell phase reason error h r s =
    let finished : RunState = record r.state {
      phase = phase;
      stop_reason = some reason;
      error = error;
    } in
    let agent = settle_agent idle error s.agent in
    if is_terminal r.state.phase
    then (s, some (run_finished r.state.id))
    else (record (write h (record r { state = finished }) s) { agent = agent }, none)

-- `RunHandle::finish`, which `succeed`, `fail` and `settle_cancelled` call with a terminal phase.
unfoldable pub finish : RunPhase → StopReason → Option Text → ℕ → System → System × Option CoreError
unfolding finish_cell
finish phase reason error h s = elim (get_elem? s.runs h) [
  | none ↦ (s, none)
  | some r ↦ finish_cell phase reason error h r s
]

unfoldable pub succeed : StopReason → ℕ → System → System × Option CoreError
succeed reason h s = finish RunPhase.succeeded reason none h s

unfoldable pub fail : Text → ℕ → System → System × Option CoreError
fail message h s = finish RunPhase.failed StopReason.error (some message) h s

unfoldable pub settle_cancelled : ℕ → System → System × Option CoreError
settle_cancelled h s = finish RunPhase.cancelled StopReason.cancelled none h s

-- The last call of `settle_cancellation`.
unfoldable pub settle_aborted : ℕ → System → System × Option CoreError
settle_aborted h s = finish RunPhase.cancelled StopReason.aborted none h s

-- What `RunHandle::abort` has still to do when it has released the lock of the run.
pub data AbortStage : Type 0 where
  finished settle_now : AbortStage
  announce : (run_id : ℕ) → AbortStage

-- The part of `RunHandle::abort` under the lock of the run.
unfoldable pub abort_run : Run → Run × AbortStage
abort_run r =
    let cancelled : RunState = record r.state {
      phase = RunPhase.cancelled;
      stop_reason = some StopReason.cancelled;
    } in
    if is_terminal r.state.phase
    then (record r { is_cancelled = true }, finished)
    else if is_created r.state.phase
    then (record { state = cancelled; is_cancelled = true }, settle_now)
    else (record r { is_cancelled = true }, announce r.state.id)

-- The part under the lock of the agent.
unfoldable pub abort_agent : AbortStage → Agent → Agent
abort_agent finished a = a
abort_agent settle_now a = settle_agent idle none a
abort_agent (announce run_id) a =
    let announced : AgentState = record a.state { phase = cancelling run_id } in
    record a { state = announced }

-- The two parts of `RunHandle::abort` as steps of their own, between which other calls may come.
unfoldable pub abort_first : ℕ → System → System × AbortStage
unfolding abort_run
abort_first h s = elim (get_elem? s.runs h) [
  | none ↦ (s, finished)
  | some r ↦ (write h (abort_run r).0 s, (abort_run r).1)
]

unfoldable pub abort_second : AbortStage → System → System
unfolding abort_agent
abort_second stage s = record s { agent = abort_agent stage s.agent }

-- `RunHandle::abort` where no other call comes between the two parts.
unfoldable pub abort : ℕ → System → System
unfolding abort_first abort_second
abort h s = let (s', stage) = abort_first h s in abort_second stage s'

drop_cell : ℕ → Run → System → System
drop_cell h r s = if is_terminal r.state.phase then s else abort h s

unfoldable pub drop_handle : ℕ → System → System
unfolding drop_cell
drop_handle h s = elim (get_elem? s.runs h) [ none ↦ s | some r ↦ drop_cell h r s ]

-- A message that the loop of a run adds to the transcript: `state.allocate_message_id()` and
-- `state.messages.push`, as for every message of `inject_queued_messages`.
unfoldable pub push_user : Text → AgentState → AgentState
unfolding allocate_message_id
push_user content s =
    let (s', id) = allocate_message_id s in
    record s' { messages = s'.messages ++ user id content ∷ [] }
