-- ===== src/Turn/Compact/Calm.antt =====
-- Steps that never fail, and assertions behind them.
use pi_agent_core_rs.Prelude.{◌≡◌, refl}
use pi_agent_core_rs.Agent.State.{CoreError}
use pi_agent_core_rs.Turn.Host.{RunPolicyState, Turn}
use pi_agent_core_rs.Turn.Exec.{Result, ok, Exec, ◌>>=◌, pure, throw, gets}
use pi_agent_core_rs.Turn.Exec.Quiet.{Same, Quiet}
use pi_agent_core_rs.Turn.Response.Ensures.{Assertion, Leaves, Ensures, Ensures-bind}
use pi_agent_core_rs.Turn.Compact.{set_policy_state, attempt}

-- A step that returns whatever the turn.
pub record Calm {W A : Type 0} (m : Exec W A) : Type 0 where
  pub at : (t : Turn W) → (a : A) × ((m t).1 ≡ ok a)

module _ {W A : Type 0} where
  leaves-Calm :
      (P F : Assertion) (r : Result A) (t t' : Turn W)
      → Same t t'
      → ((a : A) × (r ≡ ok a))
      → P t.state.messages t.state.next_message_id
      → Leaves (λ _. P) F r t'.state.messages t'.state.next_message_id
  leaves-Calm P F r t t' s (a, e) h = rw (e, s.messages, s.next_message_id) h

  pub Ensures-Calm :
      {F : Assertion} (P : Assertion) (m : Exec W A) → Quiet m → Calm m → Ensures P m (λ _. P) F
  Ensures-Calm {F} P m q c = record {
    at = λ t h. leaves-Calm P F (m t).1 t (m t).0 (q.at t) (c.at t) h;
  }

module _ {W A B : Type 0} {F : Assertion} {R : B → Assertion} where
  -- A step that always returns and leaves the transcript alone comes before.
  pub Ensures-past :
      {P : Assertion} (m : Exec W A) (f : A → Exec W B)
      → Quiet m
      → Calm m
      → ((a : A) → Ensures P (f a) R F)
      → Ensures P (m >>= f) R F
  Ensures-past {P} m f q c ef = Ensures-bind (λ _. P) m f (Ensures-Calm P m q c) ef

module _ {W : Type 0} where
  pub Quiet-set_policy_state :
      (f : RunPolicyState → RunPolicyState) → Quiet {W = W} (set_policy_state f)
  unfolding set_policy_state
  Quiet-set_policy_state f = record { at = λ t. record { messages = refl; next_message_id = refl } }

  pub Calm-set_policy_state :
      (f : RunPolicyState → RunPolicyState) → Calm {W = W} (set_policy_state f)
  unfolding set_policy_state
  Calm-set_policy_state f = record { at = λ t. (tt, refl) }

  pub Calm-gets : {A : Type 0} (f : Turn W → A) → Calm (gets f)
  unfolding gets
  Calm-gets f = record { at = λ t. (f t, refl) }

  pub Quiet-attempt : {A : Type 0} (m : Exec W A) → Quiet m → Quiet (attempt m)
  unfolding attempt
  Quiet-attempt m q = record { at = λ t. q.at t }

  pub Calm-attempt : {A : Type 0} (m : Exec W A) → Calm (attempt m)
  unfolding attempt
  Calm-attempt m = record { at = λ t. ((m t).1, refl) }

  pub Ensures-throw :
      {A : Type 0} (e : CoreError) (Q : A → Assertion) (F : Assertion)
      → Ensures {W = W} F (throw e) Q F
  unfolding throw
  Ensures-throw e Q F = record { at = λ t h. h }

  pub Ensures-pure_any :
      {A : Type 0} (a : A) (P F : Assertion) → Ensures {W = W} P (pure a) (λ _. P) F
  unfolding pure
  Ensures-pure_any a P F = record { at = λ t h. h }
