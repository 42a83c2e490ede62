-- ===== src/Turn/Response/Returns.antt =====
-- A well-formed response is consumed without an error.
use pi_agent_core_rs.Prelude.{
  ℕ, Bool, true, false, Option, none, some, Text, ◌≡◌, refl, ◌∙◌, is_some,
}
use pi_agent_core_rs.State.Types.{ModelDescriptor, Usage, StopReason, AgentMessage}
use pi_agent_core_rs.Agent.State.{allocate_message_id}
use pi_agent_core_rs.Turn.Host.{Host, Turn}
use pi_agent_core_rs.Turn.Exec.{Result, ok, Exec, ◌>>=◌, pure, is_owned}
use pi_agent_core_rs.Turn.Exec.Steady.{
  Returned, return_owned, Steady, Accepting, Steady-bind, Steady-modify_state, steady_rules,
  Steady-touch, Steady-emit,
}
use pi_agent_core_rs.Turn.Response.{
  ModelStreamEvent, text_delta, tool_call, usage_update, error, context_overflow, aborted, end,
  EventSource, closed, broken, event, take_event, Response, AssistantTurn, begin_message,
  show_partial, complete_message, announce_first, stream_delta, accept_event, accept_next,
  consume_events, announce_completed, record_usage, record_accounting, finish_response,
  consume_assistant_stream,
}
use pi_agent_core_rs.Turn.Response.Shapes.{reason_of}

-- The source closes right behind its only terminal event.
abbrev pub EndsWell : {W : Type 0} → Bool → EventSource W → Type 0
EndsWell settled (closed _) = settled ≡ true
EndsWell settled (broken _ _) = ⊥
EndsWell settled (event _ item source) =
    (settled ≡ false) × EndsWell (is_some (reason_of item)) source

module _ {W : Type 0} where
  Steady-begin_message : (id : Option ℕ) → Steady {W = W} (begin_message id)
  unfolding begin_message allocate_message_id
  Steady-begin_message none = record { at = λ t h. return_owned _ _ h }
  Steady-begin_message (some id) = record { at = λ t h. return_owned _ _ h }

  Steady-complete_message :
      (id : Option ℕ) (message : ℕ → AgentMessage) → Steady {W = W} (complete_message id message)
  unfolding complete_message allocate_message_id
  Steady-complete_message none message = record { at = λ t h. return_owned _ _ h }
  Steady-complete_message (some id) message = record { at = λ t h. return_owned _ _ h }

module _ {W Json : Type 0} (host : Host W Json) (accepting : Accepting host) where
  Steady-announce_first : (first : Option ℕ) (id : ℕ) → Steady (announce_first host first id)
  unfolding announce_first
  Steady-announce_first none id = Steady-emit host accepting _
  Steady-announce_first (some _) id = search steady_rules

  Steady-stream_delta : (delta : Text) (r : Response) → Steady (stream_delta host delta r)
  unfolding stream_delta
  Steady-stream_delta delta r = Steady-bind _ _ (Steady-begin_message r.assistant_id) λ id.
      Steady-bind _ _ (Steady-modify_state (show_partial id _) (λ s. refl)) λ _.
        Steady-bind _ _ (Steady-announce_first r.assistant_id id)
          λ _. Steady-bind _ _ (Steady-emit host accepting _) λ _. search steady_rules

  Steady-announce_completed :
      (first : Option ℕ) (message : AgentMessage) → Steady (announce_completed host first message)
  unfolding announce_completed
  Steady-announce_completed none message = Steady-emit host accepting _
  Steady-announce_completed (some _) message = search steady_rules

  Steady-record_usage :
      (turn_id : ℕ) (model : Option ModelDescriptor) (u : Option Usage)
      → Steady (record_usage host turn_id model u)
  unfolding record_usage record_accounting
  Steady-record_usage turn_id model none = search steady_rules
  Steady-record_usage turn_id model (some u) = Steady-bind _ _ (search steady_rules) λ run_id.
      Steady-bind _ _ (Steady-modify_state _ (λ s. refl)) λ _. Steady-emit host accepting _

  Steady-finish_response :
      (turn_id : ℕ) (model : Option ModelDescriptor) (r : Response) (reason : StopReason)
      → Steady (finish_response host turn_id model r (some reason))
  unfolding finish_response
  Steady-finish_response turn_id model r reason =
      Steady-bind _ _ (Steady-complete_message r.assistant_id _) λ message.
        Steady-bind _ _ (Steady-announce_completed r.assistant_id message) λ _.
          Steady-bind _ _ (Steady-emit host accepting _) λ _.
            Steady-bind _ _ (Steady-record_usage turn_id model r.collected.usage)
              λ _. search steady_rules

-- A step that returns a value of which `P` holds.
data ReturnedWith {W A : Type 0} (P : A → Type 0) : Turn W × Result A → Type 0 where
  returns_with :
      (t : Turn W) (a : A) → is_owned t.state.phase ≡ true → P a → ReturnedWith P (t, ok a)

record SteadyWith {W A : Type 0} (P : A → Type 0) (m : Exec W A) : Type 0 where
  at : (t : Turn W) → is_owned t.state.phase ≡ true → ReturnedWith P (m t)

module _ {W A B : Type 0} where
  continue_with :
      (P : A → Type 0) (Q : B → Type 0) (f : A → Exec W B) (r : Turn W × Result A)
      → ReturnedWith P r
      → ((a : A) → P a → SteadyWith Q (f a))
      → ReturnedWith Q (((λ (_ : Turn W). r) >>= f) r.0)
  unfolding ◌>>=◌
  continue_with P Q f r (returns_with t a h p) sf = (sf a p).at t h

  SteadyWith-bind :
      (P : A → Type 0) (Q : B → Type 0) (m : Exec W A) (f : A → Exec W B)
      → SteadyWith P m
      → ((a : A) → P a → SteadyWith Q (f a))
      → SteadyWith Q (m >>= f)
  unfolding ◌>>=◌
  SteadyWith-bind P Q m f sm sf = record { at = λ t h. continue_with P Q f (m t) (sm.at t h) sf }

module _ {W A : Type 0} where
  any_value : (r : Turn W × Result A) → Returned r → ReturnedWith (λ _. Unit {0}) r
  any_value r (return_owned t a h) = returns_with t a h tt

  SteadyWith-Steady : (m : Exec W A) → Steady m → SteadyWith (λ _. Unit {0}) m
  SteadyWith-Steady m s = record { at = λ t h. any_value (m t) (s.at t h) }

  SteadyWith-pure : (P : A → Type 0) (a : A) → P a → SteadyWith {W = W} P (pure a)
  unfolding pure
  SteadyWith-pure P a p = record { at = λ t h. returns_with t a h p }

  forget : (P : A → Type 0) (r : Turn W × Result A) → ReturnedWith P r → (a : A) × (r.1 ≡ ok a)
  forget P r (returns_with t a h p) = (a, refl)

-- The reason behind an event.
abbrev HasReason : Bool → Response → Type 0
HasReason settled r = is_some r.collected.reason ≡ settled

module _ {W Json : Type 0} (host : Host W Json) (accepting : Accepting host) where
  accept_event-HasReason :
      (item : ModelStreamEvent) (r : Response)
      → r.collected.reason ≡ none
      → SteadyWith (HasReason (is_some (reason_of item))) (accept_event host item r)
  unfolding accept_event take_event
  accept_event-HasReason (text_delta delta) r e =
      SteadyWith-bind (λ _. Unit {0}) _ _ _
        (SteadyWith-Steady _ (Steady-stream_delta host accepting delta r))
        (λ id _. SteadyWith-pure _ _ (rw e))
  accept_event-HasReason (tool_call _) r e = SteadyWith-pure _ _ (rw e)
  accept_event-HasReason (usage_update _) r e = SteadyWith-pure _ _ (rw e)
  accept_event-HasReason (error _) r e = SteadyWith-pure _ _ refl
  accept_event-HasReason (context_overflow _) r e = SteadyWith-pure _ _ refl
  accept_event-HasReason (aborted _) r e = SteadyWith-pure _ _ refl
  accept_event-HasReason (end _) r e = SteadyWith-pure _ _ refl

  accept_next-HasReason :
      (item : ModelStreamEvent) (r : Response) (reason : Option StopReason)
      → r.collected.reason ≡ reason
      → is_some reason ≡ false
      → SteadyWith (HasReason (is_some (reason_of item))) (accept_next host reason item r)
  unfolding accept_next
  accept_next-HasReason item r none e h = accept_event-HasReason item r e
  accept_next-HasReason item r (some reason) e h = cc

  consume_events-HasReason :
      (source : EventSource W) (r : Response) (settled : Bool)
      → HasReason settled r
      → EndsWell settled source
      → SteadyWith (HasReason true) (consume_events host source r)
  unfolding consume_events
  consume_events-HasReason (closed waited) r settled e h =
      SteadyWith-bind (λ _. Unit {0}) _ _ _ (SteadyWith-Steady _ (Steady-touch host waited))
        (λ _ _. SteadyWith-pure _ r (e ∙ h))
  consume_events-HasReason (broken waited message) r settled e h = elim h [ ]
  consume_events-HasReason (event waited item source) r settled e (h, h') =
      SteadyWith-bind (λ _. Unit {0}) _ _ _ (SteadyWith-Steady _ (Steady-touch host waited))
        (λ _ _.
          SteadyWith-bind (HasReason (is_some (reason_of item))) _ _ _
            (accept_next-HasReason item r r.collected.reason refl (e ∙ h))
            (λ r' e'. consume_events-HasReason source r' _ e' h'))

  finish_response-returns :
      (turn_id : ℕ) (model : Option ModelDescriptor) (r : Response) (reason : Option StopReason)
      → is_some reason ≡ true
      → SteadyWith (λ _. Unit {0}) (finish_response host turn_id model r reason)
  finish_response-returns turn_id model r none h = cc
  finish_response-returns turn_id model r (some reason) h =
      SteadyWith-Steady _ (Steady-finish_response host accepting turn_id model r reason)

-- A response whose source closes right behind its only terminal event is consumed without an error,
-- where the agent owns the run and no observer returns an error.
pub consume_assistant_stream_returns :
    {W Json : Type 0} (host : Host W Json) (source : EventSource W)
    → (turn_id : ℕ) (model : Option ModelDescriptor) (t : Turn W) → Accepting host
    → is_owned t.state.phase ≡ true
    → EndsWell false source
    → (turn : AssistantTurn) × ((consume_assistant_stream host source turn_id model t).1 ≡ ok turn)
unfolding consume_assistant_stream
consume_assistant_stream_returns host source turn_id model t accepting owned h = forget _ _ (
    (SteadyWith-bind (HasReason true) (λ _. Unit {0}) _ _
        (consume_events-HasReason host accepting source _ false refl h)
        (λ r e. finish_response-returns host accepting turn_id model r r.collected.reason e)).at
      t owned)
