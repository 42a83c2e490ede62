-- ===== src/Turn/Response/Loop.antt =====
-- The loop over the events of a response keeps the streamed message at the end of the transcript.
use pi_agent_core_rs.Prelude.{ℕ, List, ◌∷◌, Option, none, some, ◌≡◌, refl}
use pi_agent_core_rs.State.Types.{StopReason, AgentMessage}
use pi_agent_core_rs.Turn.Host.{Host}
use pi_agent_core_rs.Turn.Exec.{Result, ok, err, pure, throw}
use pi_agent_core_rs.Turn.Exec.Quiet.{Quiet-touch}
use pi_agent_core_rs.Turn.Response.{
  ModelStreamEvent, EventSource, closed, broken, event, take_event, Response, accept_next,
  consume_events,
}
use pi_agent_core_rs.Turn.Response.Ensures.{Assertion, Leaves, Ensures, Ensures-bind, Ensures-then}
use pi_agent_core_rs.Turn.Response.Shapes.{events, Consumes, Consumes-nil, Consumes-cons}
use pi_agent_core_rs.Turn.Response.Message.{
  Streaming, Cut, Streaming-Cut, Collects, Ensures-accept_event,
}

module _ {W Json : Type 0} (host : Host W Json) (old : List AgentMessage) (n : ℕ) where
  abbrev pub Consumed : List ModelStreamEvent → Response → Response → Assertion
  Consumed items r r' messages next =
      Streaming old n r'.assistant_id r'.collected.assistant_text messages next
      × Consumes items r.collected r'.collected

  -- The event is accepted only if none before was terminal.
  abbrev Accepts : ModelStreamEvent → Response → Option StopReason → Response → Assertion
  Accepts item r reason r' messages next =
      Collects host old n item r r' messages next × (reason ≡ none)

  accepts_open :
      (item : ModelStreamEvent) (r : Response) (res : Result Response)
      → (messages : List AgentMessage) (next : ℕ)
      → Leaves (Collects host old n item r) (Cut old) res messages next
      → Leaves (Accepts item r none) (Cut old) res messages next
  accepts_open item r (ok a) messages next h = (h, refl)
  accepts_open item r (err _) messages next h = h

  Ensures-accept_next :
      (item : ModelStreamEvent) (r : Response) (reason : Option StopReason)
      → Ensures
          (Streaming old n r.assistant_id r.collected.assistant_text)
          (accept_next host reason item r)
          (Accepts item r reason)
          (Cut old)
  unfolding accept_next throw
  Ensures-accept_next item r none = record {
    at = λ t h. accepts_open item r _ _ _ ((Ensures-accept_event host old n item r).at t h);
  }
  Ensures-accept_next item r (some reason) = record {
    at = λ t h. Streaming-Cut old n r.assistant_id _ _ _ h;
  }

  -- A loop that goes on behind an event.
  consumes_more :
      (item : ModelStreamEvent) (items : List ModelStreamEvent) (r r₁ : Response)
      → r.collected.reason ≡ none
      → r₁.collected ≡ take_event item r.collected
      → (res : Result Response) (messages : List AgentMessage) (next : ℕ)
      → Leaves (Consumed items r₁) (Cut old) res messages next
      → Leaves (Consumed (item ∷ items) r) (Cut old) res messages next
  consumes_more item items r r₁ e e' (ok a) messages next (h, h') =
      (h, Consumes-cons item items r.collected a.collected e (rw e' at h'))
  consumes_more item items r r₁ e e' (err _) messages next h = h

  pub Ensures-consume_events :
      (source : EventSource W) (r : Response)
      → Ensures
          (Streaming old n r.assistant_id r.collected.assistant_text)
          (consume_events host source r)
          (Consumed (events source) r)
          (Cut old)
  unfolding consume_events
  Ensures-consume_events (closed waited) r =
      Ensures-then _ _ (Quiet-touch host waited) (Streaming-Cut old n r.assistant_id _)
        λ _. unfold pure in record { at = λ t h. (h, Consumes-nil r.collected) }
  Ensures-consume_events (broken waited message) r =
      Ensures-then _ _ (Quiet-touch host waited) (Streaming-Cut old n r.assistant_id _)
        λ _. unfold throw in record { at = λ t h. Streaming-Cut old n r.assistant_id _ _ _ h }
  Ensures-consume_events (event waited item source) r =
      Ensures-then _ _ (Quiet-touch host waited) (Streaming-Cut old n r.assistant_id _) λ _.
        Ensures-bind (Accepts item r r.collected.reason) _ _
          (Ensures-accept_next item r r.collected.reason)
          λ r₁. record {
            at = λ t ((h, e), e').
                consumes_more item (events source) r r₁ e' e _ _ _
                  ((Ensures-consume_events source r₁).at t h);
          }
