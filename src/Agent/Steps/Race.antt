-- ===== src/Agent/Steps/Race.antt =====
-- run/mod.rs: a run that settles between the two parts of `RunHandle::abort` leaves the agent unusable.
use pi_agent_core_rs.Prelude.{
  ℕ, ◌≡◌, refl, inl, inr, true, false, List, none, some, Bool-cases, get_elem?, arith,
}
use pi_agent_core_rs.State.Types.{idle, is_terminal, StopReason}
use pi_agent_core_rs.Agent.State.{Run, System}
use pi_agent_core_rs.Agent.Run.{
  is_created, is_running, settle_agent, finish, succeed, abort_run, abort_agent, abort_first,
  abort_second, announce, write,
}
use pi_agent_core_rs.Agent.Busy.{IsBusy, owned-IsBusy}
use pi_agent_core_rs.Agent.Steps.{AgentOp, perform}
use pi_agent_core_rs.Agent.Steps.Owned.{
  IsOwned, IsLive, get-set_run_same, set_run-IsOwned, end-IsOwned,
}
use pi_agent_core_rs.Agent.Steps.Consistent.{IsConsistent}
use pi_agent_core_rs.Agent.Steps.Stuck.{AllSettled, IsStuck, owner-stuck, perform-IsStuck}

-- The first part of an abort, then a normal settlement of the run, then the second part.
unfoldable pub abort_around : StopReason → ℕ → System → System
abort_around reason h s =
    let (s', stage) = abort_first h s in abort_second stage (succeed reason h s').0

owned-AllSettled : (rs : List Run) → IsOwned none idle rs → AllSettled rs
owned-AllSettled rs o h r e = elim (Bool-cases (is_terminal r.state.phase)) [
  | inl done ↦ done
  | inr live ↦ let (a, at, named) = o.only h r e live in cc
]

running-IsLive : (r : Run) → is_running r.state.phase ≡ true → IsLive r
running-IsLive r run = ground arith

running-not_created : (r : Run) → is_running r.state.phase ≡ true → is_created r.state.phase ≡ false
running-not_created r run = ground arith

-- The cell of a run whose token is cancelled.
abbrev cut : Run → Run
cut r = record r { is_cancelled = true }

abort_first-running :
    (h : ℕ) (s : System) (r : Run)
    → get_elem? s.runs h ≡ some r
    → is_running r.state.phase ≡ true
    → abort_first h s ≡ (write h (cut r) s, announce r.state.id)
unfolding abort_first abort_run
abort_first-running h s r e run =
    rw (e, abort_first) (rw (running-IsLive r run, running-not_created r run) refl)

finish-IsOwned :
    (reason : StopReason) (h : ℕ) (s : System) (r : Run)
    → get_elem? s.runs h ≡ some r
    → IsLive r
    → IsConsistent s
    → let s' = (succeed reason h s).0 in IsOwned none idle s'.runs × (s'.agent.active ≡ none)
unfolding succeed finish settle_agent
finish-IsOwned reason h s r e live c =
    rw (e, live, succeed, finish)
      (end-IsOwned s.agent.active s.agent.state.phase s.runs h r _ e live refl c, refl)

abort_around-IsStuck :
    (reason : StopReason) (h : ℕ) (s : System) (r : Run)
    → IsConsistent s
    → get_elem? s.runs h ≡ some r
    → is_running r.state.phase ≡ true
    → IsStuck r.state.id (abort_around reason h s)
unfolding abort_around abort_second abort_agent
abort_around-IsStuck reason h s r c e run =
    let s' = write h (cut r) s in
    let e' = get-set_run_same s.runs h r (cut r) e in
    let c' =
      set_run-IsOwned s.agent.active s.agent.state.phase s.runs h r (cut r) e (refl, refl) c in
    let (owned, gone) = finish-IsOwned reason h s' (cut r) e' (running-IsLive r run) c' in
    rw (abort_first-running h s r e run, abort_around)
      (record {
        phase_kept = refl;
        no_marker = gone;
        settled = owned-AllSettled (succeed reason h s').0.runs owned;
      })

-- Where marker, phase and store of an agent agree, if a running run settles normally on another thread between the two parts of its handle's `abort`,
-- then whatever calls follow, the agent stays in the phase of cancelling this run, has no active run
-- and no run that has not settled, and it refuses every call that an agent refuses while it is busy.
pub abort_around-IsBusy :
    (reason : StopReason) (h : ℕ) (s : System) (r : Run) (ops : List AgentOp)
    → IsConsistent s
    → get_elem? s.runs h ≡ some r
    → is_running r.state.phase ≡ true
    → let s' = perform ops (abort_around reason h s) in IsStuck r.state.id s' × IsBusy r.state.id s'
abort_around-IsBusy reason h s r ops c e run =
    let s' = perform ops (abort_around reason h s) in
    let k =
      perform-IsStuck r.state.id ops (abort_around reason h s)
        (abort_around-IsStuck reason h s r c e run) in
    (k, owned-IsBusy r.state.id s' (owner-stuck r.state.id s' k))
