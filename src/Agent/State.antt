-- ===== src/Agent/State.antt =====
-- lifecycle.rs and agent/mod.rs: the state of an agent and of its runs. An `Arc` of a provider, a
-- compactor, a tool registry or a hook set is a number that names the object. The shared state of a
-- run with its cancellation token is a cell of a store, which the handle of the run and the agent's
-- active-run marker name by the cell's index.
use pi_agent_core_rs.Prelude.{
  ℕ, zero, suc, Bool, false, List, [], ◌∷◌, Option, none, some, Text, sat_add, max,
}
use pi_agent_core_rs.Queue.{QueueMode, one_at_a_time, AgentQueues, empty_queues}
use pi_agent_core_rs.State.Types.{
  ModelDescriptor, ThinkingLevel, off, ModelAccountingSnapshot, AgentMessage, message_id,
  AgentPhase, RunPhase, StopReason,
}
use pi_agent_core_rs.State.Accounting.{no_accounting}
use pi_agent_core_rs.Compaction.Policy.{
  AutomaticCompactionReason, AutomaticCompactionPolicy, disabled_policy, PolicyError,
}
use pi_agent_core_rs.Compaction.Validate.{InvalidReplacement}
use pi_agent_core_rs.Agent.Events.{AgentEvent}

-- The errors of the operations that are modelled, of `CoreError`; a `StateTransitionError` by its
-- phase and operation.
pub data CoreError : Type 0 where
  active_run : (run_id : ℕ) → CoreError
  invalid_transition : (from operation : Text) → CoreError
  run_finished : (run_id : ℕ) → CoreError
  cancelled : CoreError
  compaction : InvalidReplacement → CoreError
  missing_compactor : CoreError
  invalid_automatic_compaction_policy : PolicyError → CoreError
  hook : (message : Text) → CoreError
  model_provider unsupported_model_stream : (message : Text) → CoreError
  automatic_compaction : AutomaticCompactionReason → (message : Text) → CoreError
  automatic_compaction_unavailable : AutomaticCompactionReason → CoreError

pub record AgentState : Type 0 where
  pub system_prompt : Text
  pub model : Option ModelDescriptor
  pub thinking_level : ThinkingLevel
  pub messages : List AgentMessage
  pub host_messages : List Text
  pub phase : AgentPhase
  pub partial_response : Option Text
  pub is_streaming : Bool
  pub pending_tool_calls : List Text
  pub last_error : Option Text
  pub accounting : ModelAccountingSnapshot
  pub next_message_id : ℕ

-- `AgentState::default()`.
abbrev pub default_state : AgentState
default_state = record {
  system_prompt = [];
  model = none;
  thinking_level = off;
  messages = [];
  host_messages = [];
  phase = AgentPhase.idle;
  partial_response = none;
  is_streaming = false;
  pending_tool_calls = [];
  last_error = none;
  accounting = no_accounting;
  next_message_id = 1;
}

unfoldable pub allocate_message_id : AgentState → AgentState × ℕ
allocate_message_id s =
    (record s { next_message_id = sat_add s.next_message_id 1 }, s.next_message_id)

-- `messages.iter().map(message_id).map(|id| id.0.saturating_add(1)).max()`.
unfoldable pub largest_next : List AgentMessage → Option ℕ
largest_next [] = none
largest_next (m ∷ ms) = elim (largest_next ms) [
  | none ↦ some (sat_add (message_id m) 1)
  | some n ↦ some (max (sat_add (message_id m) 1) n)
]

unfoldable pub or_one : Option ℕ → ℕ
or_one none = 1
or_one (some n) = n

unfoldable pub replace_messages : List AgentMessage → AgentState → AgentState
unfolding largest_next or_one
replace_messages messages s = record s {
  next_message_id = max s.next_message_id (or_one (largest_next messages));
  messages = messages;
}

pub record RunState : Type 0 where
  pub id : ℕ
  pub phase : RunPhase
  pub turn_id : Option ℕ
  pub stop_reason : Option StopReason
  pub error : Option Text
  pub event_count : ℕ
  pub events : List AgentEvent

-- `RunState::created`.
abbrev pub created_run : ℕ → RunState
created_run id = record {
  id = id;
  phase = RunPhase.created;
  turn_id = none;
  stop_reason = none;
  error = none;
  event_count = 0;
  events = [];
}

-- The cell of one run: its state, and whether its token is cancelled.
pub record Run : Type 0 where
  pub state : RunState
  pub is_cancelled : Bool

pub record ActiveRun : Type 0 where
  pub id : ℕ
  pub handle : ℕ

pub record AgentConfiguration : Type 0 where
  pub system_prompt : Text
  pub tools : ℕ
  pub hooks : ℕ

-- `AgentInner`, less the observers, subscribers and wakers.
pub record Agent : Type 0 where
  pub state : AgentState
  pub queues : AgentQueues
  pub active : Option ActiveRun
  pub configuration : AgentConfiguration
  pub steering_mode : QueueMode
  pub follow_up_mode : QueueMode
  pub provider : Option ℕ
  pub compactor : Option ℕ
  pub automatic_compaction : AutomaticCompactionPolicy
  pub next_run_id : ℕ

-- The agent and the store of the runs that it ever started.
pub record System : Type 0 where
  pub agent : Agent
  pub runs : List Run

-- A built agent without tools or messages.
abbrev pub built : AgentConfiguration → Option ℕ → Option ℕ → System
built configuration provider compactor = record {
  agent = record {
    state = record default_state { system_prompt = configuration.system_prompt };
    queues = empty_queues;
    active = none;
    configuration = configuration;
    steering_mode = one_at_a_time;
    follow_up_mode = one_at_a_time;
    provider = provider;
    compactor = compactor;
    automatic_compaction = disabled_policy;
    next_run_id = 0;
  };
  runs = [];
}

-- Writing a cell of the store.
unfoldable pub set_run : ℕ → Run → List Run → List Run
set_run i r [] = []
set_run zero r (_ ∷ rs) = r ∷ rs
set_run (suc i) r (x ∷ rs) = x ∷ set_run i r rs
