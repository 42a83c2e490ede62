-- ===== src/Turn/Response/Message.antt =====
-- The assistant message that a consumed response leaves in the transcript.
use pi_agent_core_rs.Prelude.{
  ℕ, ◌≤◌, List, [], ◌∷◌, ◌++◌, Option, none, some, Text, ◌≡◌, refl, sym, ◌∙◌, ap, arith, sat_add,
  length,
}
use mathlib.Core.List.{append-nil}
use pi_agent_core_rs.State.Types.{AgentMessage}
use pi_agent_core_rs.Agent.State.{allocate_message_id}
use pi_agent_core_rs.Turn.Host.{Host}
use pi_agent_core_rs.Turn.Exec.{pure, modify_state}
use pi_agent_core_rs.Turn.Exec.Quiet.{Quiet, quiet_rules, Quiet-emit}
use pi_agent_core_rs.Turn.Response.{
  ModelStreamEvent, text_delta, tool_call, usage_update, error, context_overflow, aborted, end,
  take_event, Response, partial_message, replace_last, begin_message, show_partial, announce_first,
  stream_delta, accept_event,
}
use pi_agent_core_rs.Turn.Response.Ensures.{
  Assertion, Ensures, Ensures-pure, Ensures-bind, Ensures-then,
}

-- What the transcript is while the response is streamed, after `old` with the next ID `n`.
abbrev pub Streaming : List AgentMessage → ℕ → Option ℕ → Text → Assertion
Streaming old n none text messages next = (messages ≡ old) × (next ≡ n) × (text ≡ [])
Streaming old n (some id) text messages next =
    (id ≡ n) × (messages ≡ old ++ partial_message n text ∷ []) × (next ≡ sat_add n 1)

-- A response that is cut off leaves at most one message.
abbrev pub Cut : List AgentMessage → Assertion
Cut old messages next = (added : List AgentMessage) × (messages ≡ old ++ added) × (length added ≤ 1)

pub replace_last-append :
    (message m : AgentMessage) (ms : List AgentMessage)
    → replace_last message (ms ++ m ∷ []) ≡ ms ++ message ∷ []
unfolding replace_last
replace_last-append message m [] = refl
replace_last-append message m (m' ∷ []) = refl
replace_last-append message m (m' ∷ m'' ∷ ms) =
    ap (◌∷◌ m') (replace_last-append message m (m'' ∷ ms))

pub Streaming-Cut :
    (old : List AgentMessage) (n : ℕ) (id : Option ℕ) (text : Text) (messages : List AgentMessage)
    → (next : ℕ) → Streaming old n id text messages next
    → Cut old messages next
Streaming-Cut old n none text messages next (e, _, _) = ([], e ∙ sym (append-nil old), omega arith)
Streaming-Cut old n (some id) text messages next (_, e, _) = (_, e, omega arith)

-- The transcript with a message that is begun.
abbrev Begun : List AgentMessage → ℕ → ℕ → Assertion
Begun old n id messages next =
    (id ≡ n) × ((m : AgentMessage) × (messages ≡ old ++ m ∷ [])) × (next ≡ sat_add n 1)

module _ {W : Type 0} (old : List AgentMessage) (n : ℕ) where
  Ensures-begin_message :
      (id : Option ℕ) (text : Text)
      → Ensures {W = W} (Streaming old n id text) (begin_message id) (Begun old n) (Cut old)
  unfolding begin_message allocate_message_id
  Ensures-begin_message none text = record {
    at = λ t (e, e', _). (
      e',
      (_, ap (λ (ms : List AgentMessage). ms ++ partial_message t.state.next_message_id [] ∷ []) e),
      ap (λ (k : ℕ). sat_add k 1) e',
    );
  }
  Ensures-begin_message (some id) text = record { at = λ t (e, e', e''). (e, (_, e'), e'') }

  Ensures-show_partial :
      (id : ℕ) (text : Text)
      → Ensures {W = W}
          (Begun old n id)
          (modify_state (show_partial id text))
          (λ _. Streaming old n (some id) text)
          (Cut old)
  unfolding modify_state
  Ensures-show_partial id text = record {
    at = λ t (e, (m, e'), e''). (e, rw (e', e) (replace_last-append _ m old), e'');
  }

module _ {W Json : Type 0} (host : Host W Json) (old : List AgentMessage) (n : ℕ) where
  Quiet-announce_first : (first : Option ℕ) (id : ℕ) → Quiet (announce_first host first id)
  unfolding announce_first
  Quiet-announce_first none id = Quiet-emit host _
  Quiet-announce_first (some _) id = search quiet_rules

  Ensures-stream_delta :
      (delta : Text) (r : Response)
      → Ensures
          (Streaming old n r.assistant_id r.collected.assistant_text)
          (stream_delta host delta r)
          (λ id. Streaming old n (some id) (r.collected.assistant_text ++ delta))
          (Cut old)
  unfolding stream_delta
  Ensures-stream_delta delta r =
      Ensures-bind (Begun old n) _ _ (Ensures-begin_message old n r.assistant_id _) λ id.
        Ensures-bind (λ _. Streaming old n (some id) (r.collected.assistant_text ++ delta)) _ _
          (Ensures-show_partial old n id _)
          λ _.
            Ensures-then _ _ (Quiet-announce_first r.assistant_id id)
              (Streaming-Cut old n (some id) _)
              λ _. Ensures-then _ _ (Quiet-emit host _) (Streaming-Cut old n (some id) _) λ _.
                Ensures-pure id
                  (λ id. Streaming old n (some id) (r.collected.assistant_text ++ delta))

  -- The response behind an event.
  abbrev pub Collects : ModelStreamEvent → Response → Response → Assertion
  Collects item r r' messages next =
      Streaming old n r'.assistant_id r'.collected.assistant_text messages next
      × (r'.collected ≡ take_event item r.collected)

  Ensures-take_event :
      (item : ModelStreamEvent) (r : Response)
      → (take_event item r.collected).assistant_text ≡ r.collected.assistant_text
      → Ensures
          (Streaming old n r.assistant_id r.collected.assistant_text)
          (pure {W = W} (record r { collected = take_event item r.collected }))
          (Collects item r)
          (Cut old)
  unfolding pure
  Ensures-take_event item r e = record { at = λ t h. (rw e h, refl) }

  pub Ensures-accept_event :
      (item : ModelStreamEvent) (r : Response)
      → Ensures
          (Streaming old n r.assistant_id r.collected.assistant_text)
          (accept_event host item r)
          (Collects item r)
          (Cut old)
  unfolding accept_event take_event
  Ensures-accept_event (text_delta delta) r =
      Ensures-bind (λ id. Streaming old n (some id) (r.collected.assistant_text ++ delta)) _ _
        (Ensures-stream_delta delta r) (λ id. unfold pure in record { at = λ t h. (h, refl) })
  Ensures-accept_event (tool_call call) r = Ensures-take_event (tool_call call) r refl
  Ensures-accept_event (usage_update update) r = Ensures-take_event (usage_update update) r refl
  Ensures-accept_event (error message) r = Ensures-take_event (error message) r refl
  Ensures-accept_event (context_overflow message) r =
      Ensures-take_event (context_overflow message) r refl
  Ensures-accept_event (aborted message) r = Ensures-take_event (aborted message) r refl
  Ensures-accept_event (end reason) r = Ensures-take_event (end reason) r refl
