-- ===== src/Turn/Exec/Steady.antt =====
-- The steps of a turn that return, without an error, while the agent owns a run and no observer fails,
-- and that leave the run with the agent.
use pi_agent_core_rs.Prelude.{Bool, true, false, ◌≡◌, arith, if◌then◌else◌}
use pi_agent_core_rs.Agent.Events.{AgentEventKind, AgentEvent}
use pi_agent_core_rs.Agent.State.{AgentState}
use pi_agent_core_rs.Turn.Host.{HookResult, accepted, Host, Turn}
use pi_agent_core_rs.Turn.Exec.{
  Result, ok, Exec, ◌>>=◌, pure, gets, modify_state, is_owned, current_context, after_call, touch,
  is_cancelled, call_hook, emit,
}

-- What a step leaves: a turn that owns its run, and a value.
pub data Returned {W A : Type 0} : Turn W × Result A → Type 0 where
  return_owned : (t : Turn W) (a : A) → is_owned t.state.phase ≡ true → Returned (t, ok a)

pub record Steady {W A : Type 0} (m : Exec W A) : Type 0 where
  pub at : (t : Turn W) → is_owned t.state.phase ≡ true → Returned (m t)

-- No observer returns an error.
abbrev pub Accepting : {W Json : Type 0} → Host W Json → Type 0
Accepting {W} host = (event : AgentEvent) (world : W) → (host.observe event world).0 ≡ accepted tt

module _ {W A : Type 0} where
  pub Steady-pure : (a : A) → Steady {W = W} (pure a)
  unfolding pure
  Steady-pure a = record { at = λ t h. return_owned t a h }

  pub Steady-gets : (f : Turn W → A) → Steady (gets f)
  unfolding gets
  Steady-gets f = record { at = λ t h. return_owned t (f t) h }

  pub Steady-if : (b : Bool) (m n : Exec W A) → Steady m → Steady n → Steady (if b then m else n)
  Steady-if true m n qm qn = qm
  Steady-if false m n qm qn = qn

module _ {W A B : Type 0} where
  continue-Returned :
      (f : A → Exec W B) (r : Turn W × Result A)
      → Returned r
      → ((a : A) → Steady (f a))
      → Returned (((λ (_ : Turn W). r) >>= f) r.0)
  unfolding ◌>>=◌
  continue-Returned f r (return_owned t a h) sf = (sf a).at t h

  pub Steady-bind :
      (m : Exec W A) (f : A → Exec W B) → Steady m → ((a : A) → Steady (f a)) → Steady (m >>= f)
  unfolding ◌>>=◌
  Steady-bind m f sm sf = record { at = λ t h. continue-Returned f (m t) (sm.at t h) sf }

pub Steady-current_context : {W : Type 0} → Steady {W = W} current_context
unfolding current_context
Steady-current_context = record { at = λ t h. rw h (return_owned t _ h) }

pub Steady-modify_state :
    {W : Type 0} (f : AgentState → AgentState)
    → ((s : AgentState) → (f s).phase ≡ s.phase)
    → Steady {W = W} (modify_state f)
unfolding modify_state
Steady-modify_state f k = record {
  at = λ t h. return_owned (record t { state = f t.state }) tt (rw (k t.state) h);
}

pub ruleset steady_rules =
    (Steady-pure, Steady-gets, Steady-if, Steady-bind, Steady-current_context)

module _ {W Json : Type 0} (host : Host W Json) where
  pub after_call_owned :
      (world : W) (t : Turn W)
      → is_owned t.state.phase ≡ true
      → is_owned (after_call host world t).state.phase ≡ true
  unfolding after_call
  after_call_owned world t h = ground arith

  pub Steady-touch : (f : W → W) → Steady (touch host f)
  unfolding touch
  Steady-touch f = record { at = λ t h. return_owned _ tt (after_call_owned (f t.world) t h) }

  pub Steady-is_cancelled : Steady (is_cancelled host)
  unfolding is_cancelled
  Steady-is_cancelled = record { at = λ t h. return_owned t _ h }

  pub Steady-call_hook : {A : Type 0} (f : W → HookResult A × W) → Steady (call_hook host f)
  unfolding call_hook
  Steady-call_hook f = record {
    at = λ t h. return_owned _ (f t.world).0 (after_call_owned (f t.world).1 t h);
  }

  pub Steady-emit : Accepting host → (kind : AgentEventKind) → Steady (emit host kind)
  unfolding emit
  Steady-emit accepting kind = record {
    at = λ t h. rw accepting (return_owned _ tt (after_call_owned _ (record t { run = _ }) h));
  }
