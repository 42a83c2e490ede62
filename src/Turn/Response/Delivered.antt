-- ===== src/Turn/Response/Delivered.antt =====
-- What a consumed response leaves in the transcript, and what it returns.
use pi_agent_core_rs.Prelude.{
  ℕ, List, [], ◌∷◌, ◌++◌, Option, none, some, Text, ◌≡◌, refl, ◌∙◌, arith, sat_add,
}
use pi_agent_core_rs.State.Types.{
  ModelDescriptor, Usage, ModelTurnAccounting, StopReason, AgentMessage, assistant,
}
use pi_agent_core_rs.Agent.State.{allocate_message_id}
use pi_agent_core_rs.Turn.Host.{Host, Turn}
use pi_agent_core_rs.Turn.Exec.{Result, ok, err, pure, throw, modify_state}
use pi_agent_core_rs.Turn.Exec.Quiet.{Quiet, Quiet-bind, quiet_rules, Quiet-emit}
use pi_agent_core_rs.Turn.Response.{
  ModelStreamEvent, EventSource, nothing_collected, Response, AssistantTurn, complete_message,
  response_message, announce_completed, record_usage, record_accounting, finish_response,
  consume_assistant_stream,
}
use pi_agent_core_rs.Turn.Response.Ensures.{Assertion, Leaves, Ensures, Ensures-bind, Ensures-then}
use pi_agent_core_rs.Turn.Response.Shapes.{events, text_of, tool_calls_of, OneTerminal, Consumes}
use pi_agent_core_rs.Turn.Response.Message.{Streaming, Cut, Streaming-Cut, replace_last-append}
use pi_agent_core_rs.Turn.Response.Loop.{Consumed, Ensures-consume_events}

-- The response is in the transcript, behind `old` and under the ID `n`.
pub record Delivered (items : List ModelStreamEvent) (old : List AgentMessage) (n : ℕ)
    (turn : AssistantTurn) (messages : List AgentMessage) (next : ℕ) : Type 0 where
  pub one_terminal : OneTerminal items turn.reason
  pub tool_calls : turn.tool_calls ≡ tool_calls_of items
  pub appended :
      messages
      ≡ old
        ++ assistant (record {
          id = n;
          content = text_of items;
          tool_calls = tool_calls_of items;
          stop_reason = some turn.reason;
          error_message = turn.error_message;
        })
          ∷ []
  pub next_message_id : next ≡ sat_add n 1

module _ {W Json : Type 0} (host : Host W Json) (old : List AgentMessage) (n : ℕ) where
  -- The transcript with a complete message.
  abbrev Done : AgentMessage → Assertion
  Done message messages next = (messages ≡ old ++ message ∷ []) × (next ≡ sat_add n 1)

  Done-Cut :
      (message : AgentMessage) (messages : List AgentMessage) (next : ℕ)
      → Done message messages next
      → Cut old messages next
  Done-Cut message messages next (e, _) = (_, e, omega arith)

  Ensures-complete_message :
      (id : Option ℕ) (text : Text) (message : ℕ → AgentMessage)
      → Ensures {W = W}
          (Streaming old n id text)
          (complete_message id message)
          (λ _. Done (message n))
          (Cut old)
  unfolding complete_message allocate_message_id
  Ensures-complete_message none text message = record { at = λ t (e, e', _). (rw (e, e'), rw e') }
  Ensures-complete_message (some id) text message = record {
    at = λ t (e, e', e''). (rw (e', e) (replace_last-append _ _ old), e'');
  }

  Quiet-announce_completed :
      (first : Option ℕ) (message : AgentMessage) → Quiet (announce_completed host first message)
  unfolding announce_completed
  Quiet-announce_completed none message = Quiet-emit host _
  Quiet-announce_completed (some _) message = search quiet_rules

  Quiet-record_usage :
      (turn_id : ℕ) (model : Option ModelDescriptor) (u : Option Usage)
      → Quiet (record_usage host turn_id model u)
  unfolding record_usage
  Quiet-record_usage turn_id model none = search quiet_rules
  Quiet-record_usage turn_id model (some u) =
      Quiet-bind _ _ (search quiet_rules)
        λ run_id. Quiet-bind _ _ (Quiet-record_accounting _) λ _. Quiet-emit host _
    where
      Quiet-record_accounting :
          (accounting : ModelTurnAccounting)
          → Quiet {W = W} (modify_state (record_accounting host accounting))
      Quiet-record_accounting accounting =
          unfold modify_state record_accounting in
          record { at = λ t. record { messages = refl; next_message_id = refl } }

  -- What is returned, of the collected variables.
  abbrev Finished : Response → Option StopReason → AssistantTurn → Assertion
  Finished r reason turn messages next =
      Done (response_message r.collected turn.reason n) messages next
      × (reason ≡ some turn.reason)
      × (turn.tool_calls ≡ r.collected.tool_calls)
      × (turn.error_message ≡ r.collected.error_message)

  Ensures-finish_response :
      (turn_id : ℕ) (model : Option ModelDescriptor) (r : Response) (reason : Option StopReason)
      → Ensures
          (Streaming old n r.assistant_id r.collected.assistant_text)
          (finish_response host turn_id model r reason)
          (Finished r reason)
          (Cut old)
  unfolding finish_response
  Ensures-finish_response turn_id model r none =
      unfold throw in record { at = λ t h. Streaming-Cut old n r.assistant_id _ _ _ h }
  Ensures-finish_response turn_id model r (some reason) =
      let m = response_message r.collected reason n in
      Ensures-bind (λ _. Done m) _ _
        (Ensures-complete_message r.assistant_id r.collected.assistant_text _)
        λ message.
          Ensures-then _ _ (Quiet-announce_completed r.assistant_id message) (Done-Cut m) λ _.
            Ensures-then _ _ (Quiet-emit host _) (Done-Cut m) λ _.
              Ensures-then _ _ (Quiet-record_usage turn_id model r.collected.usage) (Done-Cut m)
                λ _. unfold pure in record { at = λ t h. (h, refl, refl, refl) }

  delivered :
      (items : List ModelStreamEvent) (r : Response) (turn : AssistantTurn)
      → (messages : List AgentMessage) (next : ℕ) → Consumes items nothing_collected r.collected
      → Finished r r.collected.reason turn messages next
      → Delivered items old n turn messages next
  unfolding response_message
  delivered items r turn messages next (h, h', h'') ((e, e'), e₁, e₂, e₃) = record {
    one_terminal = rw e₁ at h'';
    tool_calls = e₂ ∙ h';
    appended = rw (e, h, h', e₃);
    next_message_id = e';
  }

  Ensures-consume_assistant_stream :
      (source : EventSource W) (turn_id : ℕ) (model : Option ModelDescriptor)
      → Ensures
          (Streaming old n none [])
          (consume_assistant_stream host source turn_id model)
          (Delivered (events source) old n)
          (Cut old)
  unfolding consume_assistant_stream
  Ensures-consume_assistant_stream source turn_id model =
      let started : Response = record { assistant_id = none; collected = nothing_collected } in
      Ensures-bind (Consumed host old n (events source) started) _ _
        (Ensures-consume_events host old n source started)
        λ r. record {
          at = λ t (h, h').
              deliver r h' _ _ _
                ((Ensures-finish_response turn_id model r r.collected.reason).at t h);
        }
    where
      deliver :
          (r : Response)
          → Consumes (events source) nothing_collected r.collected
          → (res : Result AssistantTurn) (messages : List AgentMessage) (next : ℕ)
          → Leaves (Finished r r.collected.reason) (Cut old) res messages next
          → Leaves (Delivered (events source) old n) (Cut old) res messages next
      deliver r h (ok turn) messages next h' = delivered (events source) r turn messages next h h'
      deliver r h (err _) messages next h' = h'

-- A response that is consumed without an error had exactly one terminal event, its last one, whose
-- reason is returned. It leaves exactly one message in the transcript, under the next message ID: an
-- assistant message of all text deltas in order, of all tool calls in order, which are returned
-- too, and of the returned reason and error message. A response that fails leaves at most one message.
pub consume_assistant_stream-Delivered :
    {W Json : Type 0} (host : Host W Json) (source : EventSource W)
    → (turn_id : ℕ) (model : Option ModelDescriptor) (t : Turn W)
    → let r = consume_assistant_stream host source turn_id model t in
      Leaves
        (Delivered (events source) t.state.messages t.state.next_message_id)
        (Cut t.state.messages)
        r.1
        r.0.state.messages
        r.0.state.next_message_id
consume_assistant_stream-Delivered host source turn_id model t =
    (Ensures-consume_assistant_stream host t.state.messages t.state.next_message_id source turn_id
        model).at
      t (refl, refl, refl)
