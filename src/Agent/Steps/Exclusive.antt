-- ===== src/Agent/Steps/Exclusive.antt =====
-- What the agreement of marker, phase and store means to a host.
use pi_agent_core_rs.Prelude.{
  ℕ, ◌≡◌, refl, ◌∙◌, inl, inr, true, List, Option, none, some, get_elem?, Bool-cases,
}
use pi_agent_core_rs.State.Types.{AgentPhase, idle, is_terminal}
use pi_agent_core_rs.Agent.State.{Run, ActiveRun, AgentConfiguration, System, built}
use pi_agent_core_rs.Agent.Start.{owner}
use pi_agent_core_rs.Agent.Steps.{AgentOp, perform}
use pi_agent_core_rs.Agent.Steps.Owned.{IsLive, Owns}
use pi_agent_core_rs.Agent.Steps.Consistent.{IsConsistent}
use pi_agent_core_rs.Agent.Steps.Reachable.{perform-IsConsistent, built-IsConsistent}

-- What a host can rely on.
pub record IsExclusive (s : System) : Type 0 where
  pub one_live :
      (h j : ℕ) (r q : Run)
      → get_elem? s.runs h ≡ some r
      → get_elem? s.runs j ≡ some q
      → IsLive r
      → IsLive q
      → h ≡ j
  pub idle_settled :
      s.agent.state.phase ≡ idle
      → (h : ℕ) (r : Run) → get_elem? s.runs h ≡ some r
      → is_terminal r.state.phase ≡ true
  pub owner_live :
      (id : ℕ)
      → owner s.agent.state.phase ≡ some id
      → (h : ℕ) × (r : Run) × (get_elem? s.runs h ≡ some r) × (r.state.id ≡ id) × IsLive r

owner-IsLive :
    (active : Option ActiveRun) (phase : AgentPhase) (rs : List Run) (id : ℕ)
    → Owns active phase rs
    → owner phase ≡ some id
    → (h : ℕ) × (r : Run) × (get_elem? rs h ≡ some r) × (r.state.id ≡ id) × IsLive r
owner-IsLive none phase rs id w e = let e' = rw w at e in cc
owner-IsLive (some a) phase rs id (inl p, r, g, named, live) e =
    let e' = rw p at e in (a.handle, r, g, named ∙ cc, live)
owner-IsLive (some a) phase rs id (inr p, r, g, named, live) e =
    let e' = rw p at e in (a.handle, r, g, named ∙ cc, live)

idle-none :
    (active : Option ActiveRun) (phase : AgentPhase) (rs : List Run)
    → Owns active phase rs
    → phase ≡ idle
    → active ≡ none
idle-none none phase rs w e = refl
idle-none (some a) phase rs (inl p, r, g, w, v) e = cc
idle-none (some a) phase rs (inr p, r, g, w, v) e = cc

pub consistent-IsExclusive : (s : System) → IsConsistent s → IsExclusive s
consistent-IsExclusive s c = record {
  one_live = λ h j r q e e' live live'.
      let (a, at, named) = c.only h r e live in let (b, at', named') = c.only j q e' live' in cc;
  idle_settled = λ i h r e. elim (Bool-cases (is_terminal r.state.phase)) [
    | inl done ↦ done
    | inr live ↦
        let (a, at, named) = c.only h r e live in
        let n = idle-none s.agent.active s.agent.state.phase s.runs c.owns i in cc
  ];
  owner_live = λ id e. owner-IsLive s.agent.active s.agent.state.phase s.runs id c.owns e;
}

-- After any sequence of calls on a new agent at most one run has not settled; where the agent is idle
-- all have; and where it is running or cancelling, the run that its phase names has not.
pub perform-IsExclusive :
    (ops : List AgentOp) (configuration : AgentConfiguration) (provider compactor : Option ℕ)
    → IsExclusive (perform ops (built configuration provider compactor))
perform-IsExclusive ops configuration provider compactor = consistent-IsExclusive _ (
    perform-IsConsistent ops (built configuration provider compactor)
      (built-IsConsistent configuration provider compactor))
