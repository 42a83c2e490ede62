-- ===== src/Turn/Response/Ensures.antt =====
-- Assertions about the transcript and the next message ID around a step of a turn.
use pi_agent_core_rs.Prelude.{ℕ, List}
use pi_agent_core_rs.State.Types.{AgentMessage}
use pi_agent_core_rs.Agent.State.{CoreError}
use pi_agent_core_rs.Turn.Host.{Turn}
use pi_agent_core_rs.Turn.Exec.{Result, ok, err, Exec, ◌>>=◌, pure, throw}
use pi_agent_core_rs.Turn.Exec.Quiet.{Same, Quiet}

abbrev pub Assertion : Type 1
Assertion = List AgentMessage → ℕ → Type 0

abbrev pub Leaves : {A : Type 0} → (A → Assertion) → Assertion → Result A → Assertion
Leaves Q F (ok a) messages next = Q a messages next
Leaves Q F (err _) messages next = F messages next

-- From a turn where `P` holds, the step leaves `Q` of its value, or `F` with an error.
pub record Ensures {W A : Type 0} (P : Assertion) (m : Exec W A) (Q : A → Assertion) (F : Assertion)
    : Type 0 where
  pub at :
      (t : Turn W)
      → P t.state.messages t.state.next_message_id
      → Leaves Q F (m t).1 (m t).0.state.messages (m t).0.state.next_message_id

module _ {W A : Type 0} {F : Assertion} where
  pub Ensures-pure : (a : A) (Q : A → Assertion) → Ensures {W = W} (Q a) (pure a) Q F
  unfolding pure
  Ensures-pure a Q = record { at = λ t h. h }

  pub Ensures-throw : (e : CoreError) (Q : A → Assertion) → Ensures {W = W} F (throw e) Q F
  unfolding throw
  Ensures-throw e Q = record { at = λ t h. h }

  leaves-Quiet :
      (P : Assertion) (r : Result A) (t t' : Turn W)
      → Same t t'
      → ((messages : List AgentMessage) (next : ℕ) → P messages next → F messages next)
      → P t.state.messages t.state.next_message_id
      → Leaves (λ _. P) F r t'.state.messages t'.state.next_message_id
  leaves-Quiet P (ok a) t t' s k h = rw (s.messages, s.next_message_id) h
  leaves-Quiet P (err e) t t' s k h = rw (s.messages, s.next_message_id) (k _ _ h)

  pub Ensures-Quiet :
      (P : Assertion) (m : Exec W A)
      → Quiet m
      → ((messages : List AgentMessage) (next : ℕ) → P messages next → F messages next)
      → Ensures P m (λ _. P) F
  Ensures-Quiet P m q k = record { at = λ t h. leaves-Quiet P (m t).1 t (m t).0 (q.at t) k h }

module _ {W A B : Type 0} {F : Assertion} {R : B → Assertion} where
  continue-Leaves :
      (Q : A → Assertion) (f : A → Exec W B) (t : Turn W) (r : Result A)
      → Leaves Q F r t.state.messages t.state.next_message_id
      → ((a : A) → Ensures (Q a) (f a) R F)
      → let r' = ((λ (_ : Turn W). (t, r)) >>= f) t in
        Leaves R F r'.1 r'.0.state.messages r'.0.state.next_message_id
  unfolding ◌>>=◌
  continue-Leaves Q f t (ok a) h ef = (ef a).at t h
  continue-Leaves Q f t (err e) h ef = h

  pub Ensures-bind :
      {P : Assertion} (Q : A → Assertion) (m : Exec W A) (f : A → Exec W B)
      → Ensures P m Q F
      → ((a : A) → Ensures (Q a) (f a) R F)
      → Ensures P (m >>= f) R F
  unfolding ◌>>=◌
  Ensures-bind Q m f em ef = record {
    at = λ t h. continue-Leaves Q f (m t).0 (m t).1 (em.at t h) ef;
  }

  -- A step that leaves the transcript alone comes before.
  pub Ensures-then :
      {P : Assertion} (m : Exec W A) (f : A → Exec W B)
      → Quiet m
      → ((messages : List AgentMessage) (next : ℕ) → P messages next → F messages next)
      → ((a : A) → Ensures P (f a) R F)
      → Ensures P (m >>= f) R F
  Ensures-then {P} m f q k ef = Ensures-bind (λ _. P) m f (Ensures-Quiet P m q k) ef
