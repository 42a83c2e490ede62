-- ===== src/Turn/Exec/Quiet.antt =====
-- The steps of a turn that leave the transcript and the counter of message IDs as they are.
use pi_agent_core_rs.Prelude.{Bool, true, false, ◌≡◌, refl, arith, ◌∙◌, if◌then◌else◌}
use pi_agent_core_rs.Agent.Events.{AgentEventKind}
use pi_agent_core_rs.Turn.Host.{HookResult, Host, Turn}
use pi_agent_core_rs.Turn.Exec.{
  Result, ok, err, Exec, ◌>>=◌, pure, gets, current_context, after_call, touch, is_cancelled,
  call_hook, emit,
}

pub record Same {W : Type 0} (t t' : Turn W) : Type 0 where
  pub messages : t'.state.messages ≡ t.state.messages
  pub next_message_id : t'.state.next_message_id ≡ t.state.next_message_id

pub record Quiet {W A : Type 0} (m : Exec W A) : Type 0 where
  pub at : (t : Turn W) → Same t (m t).0

module _ {W A : Type 0} where
  pub Quiet-pure : (a : A) → Quiet {W = W} (pure a)
  unfolding pure
  Quiet-pure a = record { at = λ t. record { messages = refl; next_message_id = refl } }

  pub Quiet-gets : (f : Turn W → A) → Quiet (gets f)
  unfolding gets
  Quiet-gets f = record { at = λ t. record { messages = refl; next_message_id = refl } }

  pub Quiet-if : (b : Bool) (m n : Exec W A) → Quiet m → Quiet n → Quiet (if b then m else n)
  Quiet-if true m n qm qn = qm
  Quiet-if false m n qm qn = qn

module _ {W A B : Type 0} where
  continue-Same :
      (f : A → Exec W B) (r : Result A) (t t' : Turn W)
      → Same t t'
      → ((a : A) → Quiet (f a))
      → Same t (((λ _. (t', r)) >>= f) t).0
  unfolding ◌>>=◌
  continue-Same f (err e) t t' s qf = s
  continue-Same f (ok a) t t' s qf =
      let s' = (qf a).at t' in
      record {
        messages = s'.messages ∙ s.messages;
        next_message_id = s'.next_message_id ∙ s.next_message_id;
      }

  pub Quiet-bind :
      (m : Exec W A) (f : A → Exec W B) → Quiet m → ((a : A) → Quiet (f a)) → Quiet (m >>= f)
  unfolding ◌>>=◌
  Quiet-bind m f qm qf = record {
    at = λ t. let (t', r) = m t in continue-Same f r t t' (qm.at t) qf;
  }

pub Quiet-current_context : {W : Type 0} → Quiet {W = W} current_context
unfolding current_context
Quiet-current_context = record { at = λ t. record { messages = refl; next_message_id = refl } }

pub ruleset quiet_rules = (Quiet-pure, Quiet-gets, Quiet-if, Quiet-bind, Quiet-current_context)

module _ {W Json : Type 0} (host : Host W Json) where
  pub after_call-Same : (world : W) (t : Turn W) → Same t (after_call host world t)
  unfolding after_call
  after_call-Same world t = record { messages = ground arith; next_message_id = ground arith }

  pub Quiet-touch : (f : W → W) → Quiet (touch host f)
  unfolding touch
  Quiet-touch f = record { at = λ t. after_call-Same (f t.world) t }

  pub Quiet-is_cancelled : Quiet (is_cancelled host)
  unfolding is_cancelled
  Quiet-is_cancelled = record { at = λ t. record { messages = refl; next_message_id = refl } }

  pub Quiet-call_hook : {A : Type 0} (f : W → HookResult A × W) → Quiet (call_hook host f)
  unfolding call_hook
  Quiet-call_hook f = record { at = λ t. after_call-Same (f t.world).1 t }

  pub Quiet-emit : (kind : AgentEventKind) → Quiet (emit host kind)
  unfolding emit after_call
  Quiet-emit kind = record {
    at = λ t. record { messages = ground arith; next_message_id = ground arith };
  }
