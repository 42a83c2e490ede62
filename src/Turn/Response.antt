-- ===== src/Turn/Response.antt =====
-- run/mod.rs: `consume_assistant_stream`, and `ModelStreamEvent` of scheduler.rs. An event source is what
-- is left of it: its events, the host's doings while the next one is awaited, and how it ends.
pub mod Ensures
pub mod Message
pub mod Shapes
pub mod Loop
pub mod Delivered
pub mod Returns
use pi_agent_core_rs.Prelude.{
  ℕ, zero, suc, Bool, true, false, List, [], ◌∷◌, ◌++◌, Option, none, some, Text, codes, is_some,
  if◌then◌else◌,
}
use pi_agent_core_rs.State.Types.{
  ModelDescriptor, Usage, ModelTurnAccounting, StopReason, AgentToolCall, AssistantMessage,
  AgentMessage, assistant,
}
use pi_agent_core_rs.State.Accounting.{merge, record_turn}
use pi_agent_core_rs.Agent.Events.{
  AgentEventKind, message_start, message_update, message_end, model_turn_usage,
}
use pi_agent_core_rs.Agent.State.{
  AgentState, allocate_message_id, model_provider, unsupported_model_stream,
}
use pi_agent_core_rs.Turn.Host.{Host, Turn}
use pi_agent_core_rs.Turn.Exec.{
  Result, ok, err, Exec, ◌>>=◌, ◌>>◌, pure, throw, gets, modify_state, touch, emit,
}

pub data ModelStreamEvent : Type 0 where
  text_delta : Text → ModelStreamEvent
  tool_call : AgentToolCall → ModelStreamEvent
  usage_update : Usage → ModelStreamEvent
  error context_overflow aborted : (message : Text) → ModelStreamEvent
  end : StopReason → ModelStreamEvent

pub data EventSource (W : Type 0) : Type 0 where
  closed : (waited : W → W) → EventSource W
  broken : (waited : W → W) → (message : Text) → EventSource W
  event : (waited : W → W) → ModelStreamEvent → EventSource W → EventSource W

-- The variables of the loop but the ID.
pub record Collected : Type 0 where
  pub assistant_text : Text
  pub tool_calls : List AgentToolCall
  pub reason : Option StopReason
  pub error_message : Option Text
  pub usage : Option Usage
  pub context_overflow : Bool

abbrev pub nothing_collected : Collected
nothing_collected = record {
  assistant_text = [];
  tool_calls = [];
  reason = none;
  error_message = none;
  usage = none;
  context_overflow = false;
}

abbrev pub merged : Option Usage → Usage → Usage
merged none update = update
merged (some current) update = merge current update

-- What the arms of the `match` do to the variables.
unfoldable pub take_event : ModelStreamEvent → Collected → Collected
take_event (text_delta delta) c = record c { assistant_text = c.assistant_text ++ delta }
take_event (tool_call call) c = record c { tool_calls = c.tool_calls ++ call ∷ [] }
take_event (usage_update update) c = record c { usage = some (merged c.usage update) }
take_event (error message) c = record c {
  reason = some StopReason.error;
  error_message = some message;
}
take_event (ModelStreamEvent.context_overflow message) c = record c {
  reason = some StopReason.error;
  error_message = some message;
  context_overflow = true;
}
take_event (aborted message) c = record c {
  reason = some StopReason.aborted;
  error_message = some message;
}
take_event (end reason) c = record c { reason = some reason }

pub record Response : Type 0 where
  pub assistant_id : Option ℕ
  pub collected : Collected

-- What `consume_assistant_stream` returns.
pub record AssistantTurn : Type 0 where
  pub reason : StopReason
  pub tool_calls : List AgentToolCall
  pub error_message : Option Text
  pub valid_input_tokens : Option ℕ
  pub context_overflow : Bool

-- A message that is still streamed.
abbrev pub partial_message : ℕ → Text → AgentMessage
partial_message id text =
    assistant (record {
      id = id;
      content = text;
      tool_calls = [];
      stop_reason = none;
      error_message = none;
    })

-- `*messages.last_mut() = message`.
unfoldable pub replace_last : AgentMessage → List AgentMessage → List AgentMessage
replace_last message [] = []
replace_last message (m ∷ []) = message ∷ []
replace_last message (m ∷ m' ∷ ms) = m ∷ replace_last message (m' ∷ ms)

abbrev show_partial : ℕ → Text → AgentState → AgentState
show_partial id text s = record s {
  partial_response = some text;
  messages = replace_last (partial_message id text) s.messages;
}

module _ {W : Type 0} where
  -- The insertion of an empty message for the first delta.
  unfoldable pub begin_message : Option ℕ → Exec W ℕ
  unfolding allocate_message_id
  begin_message (some id) t = (t, ok id)
  begin_message none t =
      let (s, id) = allocate_message_id t.state in
      let begun : AgentState = record s { messages = s.messages ++ partial_message id [] ∷ [] } in
      (record t { state = begun }, ok id)

  -- The final message takes the place of the streamed one, or is appended.
  unfoldable pub complete_message : Option ℕ → (ℕ → AgentMessage) → Exec W AgentMessage
  unfolding allocate_message_id
  complete_message (some id) message t =
      let completed : AgentState = record t.state {
        partial_response = none;
        is_streaming = false;
        messages = replace_last (message id) t.state.messages;
      } in
      (record t { state = completed }, ok (message id))
  complete_message none message t =
      let (s, id) = allocate_message_id t.state in
      let completed : AgentState = record s {
        partial_response = none;
        is_streaming = false;
        messages = s.messages ++ message id ∷ [];
      } in
      (record t { state = completed }, ok (message id))

-- The tokens of a complete response, if they were reported and are not zero.
unfoldable pub valid_tokens : StopReason → Option Usage → Option ℕ
valid_tokens StopReason.error usage = none
valid_tokens StopReason.aborted usage = none
valid_tokens _ none = none
valid_tokens _ (some u) = elim u.input_tokens [
  | none ↦ none
  | some zero ↦ none
  | some (suc n) ↦ some (suc n)
]

-- The assistant message of a response.
unfoldable pub response_message : Collected → StopReason → ℕ → AgentMessage
response_message c reason id = assistant (record {
  id = id;
  content = c.assistant_text;
  tool_calls = c.tool_calls;
  stop_reason = some reason;
  error_message = c.error_message;
})

module _ {W Json : Type 0} (host : Host W Json) where
  announce_first : Option ℕ → ℕ → Exec W (Unit {0})
  announce_first (some _) id = pure tt
  announce_first none id = emit host (message_start (partial_message id []))

  -- The arm of a text delta, up to the new ID.
  stream_delta : Text → Response → Exec W ℕ
  unfolding announce_first
  stream_delta delta r = do
    id ← begin_message r.assistant_id
    modify_state (show_partial id (r.collected.assistant_text ++ delta))
    announce_first r.assistant_id id
    emit host
        (message_update (partial_message id (r.collected.assistant_text ++ delta)) (some delta))
    pure id

  unfoldable pub accept_event : ModelStreamEvent → Response → Exec W Response
  unfolding stream_delta
  accept_event (text_delta delta) r = do
    id ← stream_delta delta r
    pure (record { assistant_id = some id; collected = take_event (text_delta delta) r.collected })
  accept_event item r = pure (record r { collected = take_event item r.collected })

  -- An event behind the terminal one is refused.
  accept_next : Option StopReason → ModelStreamEvent → Response → Exec W Response
  unfolding accept_event
  accept_next none item r = accept_event item r
  accept_next (some _) item r =
      throw
        (unsupported_model_stream (codes "model stream contained events after its terminal event"))

  -- The loop over the events.
  unfoldable pub consume_events : EventSource W → Response → Exec W Response
  unfolding accept_next
  consume_events (closed waited) r = do touch host waited; pure r
  consume_events (broken waited message) r = do touch host waited; throw (model_provider message)
  consume_events (event waited item source) r = do
    touch host waited
    r' ← accept_next r.collected.reason item r
    consume_events source r'

  announce_completed : Option ℕ → AgentMessage → Exec W (Unit {0})
  announce_completed (some _) message = pure tt
  announce_completed none message = emit host (message_start message)

  record_accounting : ModelTurnAccounting → AgentState → AgentState
  record_accounting accounting s = record s { accounting = record_turn s.accounting accounting }

  record_usage : ℕ → Option ModelDescriptor → Option Usage → Exec W (Unit {0})
  unfolding record_accounting
  record_usage turn_id model none = pure tt
  record_usage turn_id model (some usage) = do
    run_id ← gets (λ t. t.run.id)
    let accounting : ModelTurnAccounting = record {
      run_id = run_id;
      turn_id = turn_id;
      model = model;
      usage = usage;
    }
    modify_state (record_accounting accounting)
    emit host (model_turn_usage accounting)

  -- What follows the loop.
  finish_response : ℕ → Option ModelDescriptor → Response → Option StopReason → Exec W AssistantTurn
  unfolding announce_completed record_usage
  finish_response turn_id model r none =
      throw (unsupported_model_stream (codes "model stream ended without a terminal event"))
  finish_response turn_id model r (some reason) = do
    message ← complete_message r.assistant_id (response_message r.collected reason)
    announce_completed r.assistant_id message
    emit host (message_end message)
    record_usage turn_id model r.collected.usage
    pure (record {
      reason = reason;
      tool_calls = r.collected.tool_calls;
      error_message = r.collected.error_message;
      valid_input_tokens = valid_tokens reason r.collected.usage;
      context_overflow = r.collected.context_overflow;
    })

  unfoldable pub consume_assistant_stream :
      EventSource W → ℕ → Option ModelDescriptor → Exec W AssistantTurn
  unfolding finish_response
  consume_assistant_stream source turn_id model = do
    r ← consume_events source (record { assistant_id = none; collected = nothing_collected })
    finish_response turn_id model r r.collected.reason
