-- ===== src/Turn/Exec.antt =====
-- run/mod.rs: the steps that a turn is composed of. `async fn`s that return a `Result` are functions of
-- the turn to the turn behind them and the result; `?` is the bind.
pub mod Quiet
pub mod Steady
use pi_agent_core_rs.Prelude.{
  ℕ, Bool, true, false, ◌||◌, List, [], ◌∷◌, ◌++◌, Option, none, some, Text, codes, if◌then◌else◌,
}
use pi_agent_core_rs.Prelude.Sets.{set_insert, set_remove}
use pi_agent_core_rs.State.Types.{AgentPhase, idle, running, cancelling, AgentMessage}
use pi_agent_core_rs.Agent.Events.{AgentEventKind, message_start, message_end}
use pi_agent_core_rs.Agent.State.{
  CoreError, invalid_transition, hook, AgentState, allocate_message_id, RunState, Run,
}
use pi_agent_core_rs.Agent.Run.{record_event}
use pi_agent_core_rs.Turn.Host.{ContextEnvelope, HookResult, accepted, refused, Host, Turn}

pub data Result (A : Type 0) : Type 0 where
  ok : A → Result A
  err : CoreError → Result A

abbrev pub Exec : Type 0 → Type 0 → Type 0
Exec W A = Turn W → Turn W × Result A

abbrev pub continue : {W A B : Type 0} → Result A → (A → Exec W B) → Exec W B
continue (ok a) f t = f a t
continue (err e) f t = (t, err e)

module _ {W A B : Type 0} where
  infixl 5 ◌>>=◌ ◌>>◌
  unfoldable pub ◌>>=◌ : Exec W A → (A → Exec W B) → Exec W B
  ◌>>=◌ m f t = let (t', r) = m t in continue r f t'

  abbrev pub ◌>>◌ : Exec W A → Exec W B → Exec W B
  m >> n = m >>= λ _. n

module _ {W A : Type 0} where
  unfoldable pub pure : A → Exec W A
  pure a t = (t, ok a)

  unfoldable pub throw : CoreError → Exec W A
  throw e t = (t, err e)

  unfoldable pub gets : (Turn W → A) → Exec W A
  gets f t = (t, ok (f t))

-- The agent owns a run.
abbrev pub is_owned : AgentPhase → Bool
is_owned idle = false
is_owned (running _) = true
is_owned (cancelling _) = true

module _ {W : Type 0} where
  -- A change under the lock of the agent's state.
  unfoldable pub modify_state : (AgentState → AgentState) → Exec W (Unit {0})
  modify_state f t = (record t { state = f t.state }, ok tt)

  -- `current_context`.
  unfoldable pub current_context : Exec W ContextEnvelope
  current_context t =
      let context : ContextEnvelope = record {
        version = 1;
        messages = t.state.messages;
        host_messages = t.state.host_messages;
      } in
      (
        t,
        (if is_owned t.state.phase
            then ok context
            else err (invalid_transition (codes "not-running") (codes "current_context"))),
      )

module _ {W Json : Type 0} (host : Host W Json) where
  -- A host that aborts the run while it is called sets the agent's phase, as `abort` does.
  unfoldable pub after_call : W → Turn W → Turn W
  after_call world t =
      let announced : AgentState = record t.state { phase = cancelling t.run.id } in
      if host.is_aborted world
      then record t { state = announced; world = world }
      else record t { world = world }

  unfoldable pub touch : (W → W) → Exec W (Unit {0})
  unfolding after_call
  touch f t = (after_call (f t.world) t, ok tt)

  unfoldable pub is_cancelled : Exec W Bool
  is_cancelled t = (t, ok (host.is_cancelled t.world))

  -- A call of a hook.
  unfoldable pub call_hook : {A : Type 0} → (W → HookResult A × W) → Exec W (HookResult A)
  unfolding after_call
  call_hook f t = let (r, world) = f t.world in (after_call world t, ok r)

  abbrev accept_observed : {A : Type 0} → HookResult A → Result A
  accept_observed (accepted a) = ok a
  accept_observed (refused message) = err (hook message)

  -- `emit`: the event is recorded before the observers see it, and the first error of one is returned.
  unfoldable pub emit : AgentEventKind → Exec W (Unit {0})
  unfolding after_call record_event
  emit kind t =
      let cell : Run = record { state = t.run; is_cancelled = false } in
      let recorded = (record_event kind cell).0.state in
      let (r, world) =
        host.observe (record { run_id = recorded.id; sequence = recorded.event_count; kind = kind })
          t.world in
      (after_call world (record t { run = recorded }), accept_observed r)
