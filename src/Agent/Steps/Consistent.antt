-- ===== src/Agent/Steps/Consistent.antt =====
-- Every call keeps the marker, the phase and the store in agreement.
use pi_agent_core_rs.Prelude.{
  ℕ, ◌≡◌, refl, sym, ap, ◌∙◌, inl, inr, Bool, true, false, List, [], ◌∷◌, Option, none, some, Text,
  arith, sat_add, is_empty, get_elem?, last?, Option-cases, Bool-cases,
}
use pi_agent_core_rs.Queue.{drain}
use pi_agent_core_rs.Compaction.Validate.{validate_messages}
use pi_agent_core_rs.State.Types.{
  AgentMessage, user, assistant, tool_result, AgentPhase, idle, running, cancelling, RunPhase,
  is_terminal, StopReason,
}
use pi_agent_core_rs.Agent.Events.{AgentEventKind}
use pi_agent_core_rs.Agent.State.{AgentState, Run, ActiveRun, System, replace_messages}
use pi_agent_core_rs.Agent.Run.{
  Change, is_created, start_turn, advance_turn, begin_settlement, record_event, on_run, finish,
  abort_run, abort_agent, abort_first, abort_second, abort, drop_handle, settle_agent,
}
use pi_agent_core_rs.Agent.Start.{
  owner, allocate_users, start_run, drain_continue_tail_messages, continue_from, start_continue,
  continue_tail, start_compaction, runs_as, commit_replacement, commit_compaction,
}
use pi_agent_core_rs.Agent.Steps.Owned.{
  IsLive, IsOwned, SameLife, set_run-IsOwned, end-IsOwned, start-IsOwned,
}

-- If the agent is idle, it has no active run and every run has settled; if it is running or
-- cancelling, its marker and its phase name the one run that has not settled.
abbrev pub IsConsistent : System → Type 0
IsConsistent s = IsOwned s.agent.active s.agent.state.phase s.runs

-- A method that touches its run alone, and leaves its ID and whether it is terminal.
pub on_run-IsConsistent :
    (method : Run → Change) (h : ℕ) (s : System)
    → ((r : Run) → SameLife r (method r).0)
    → IsConsistent s
    → IsConsistent (on_run method h s).0
unfolding on_run
on_run-IsConsistent method h s same c = elim (Option-cases (get_elem? s.runs h)) [
  | inl e ↦ rw (e, on_run) c
  | inr (r, e) ↦
      rw (e, on_run)
        (set_run-IsOwned s.agent.active s.agent.state.phase s.runs h r (method r).0 e (same r) c)
]

pub start_turn-SameLife : (turn_id : ℕ) (r : Run) → SameLife r (start_turn turn_id r).0
unfolding start_turn
start_turn-SameLife turn_id r = ground arith

pub advance_turn-SameLife : (turn_id : ℕ) (r : Run) → SameLife r (advance_turn turn_id r).0
unfolding advance_turn
advance_turn-SameLife turn_id r = ground arith

pub begin_settlement-SameLife : (r : Run) → SameLife r (begin_settlement r).0
unfolding begin_settlement
begin_settlement-SameLife r = ground arith

pub record_event-SameLife : (kind : AgentEventKind) (r : Run) → SameLife r (record_event kind r).0
unfolding record_event
record_event-SameLife kind r = (refl, refl)

pub finish-IsConsistent :
    (phase : RunPhase) (reason : StopReason) (error : Option Text) (h : ℕ) (s : System)
    → is_terminal phase ≡ true
    → IsConsistent s
    → IsConsistent (finish phase reason error h s).0
unfolding finish settle_agent
finish-IsConsistent phase reason error h s over c = elim (Option-cases (get_elem? s.runs h)) [
  | inl e ↦ rw (e, finish) c
  | inr (r, e) ↦
      rw (e, finish)
        (elim (Bool-cases (is_terminal r.state.phase)) [
          | inl done ↦ rw done c
          | inr live ↦
              rw live (end-IsOwned s.agent.active s.agent.state.phase s.runs h r _ e live over c)
        ])
]

cancelling-IsOwned :
    (active : Option ActiveRun) (phase : AgentPhase) (rs : List Run) (h : ℕ) (r : Run)
    → get_elem? rs h ≡ some r
    → IsLive r
    → IsOwned active phase rs
    → IsOwned active (cancelling r.state.id) rs
cancelling-IsOwned none phase rs h r e live o = let (a, at, named) = o.only h r e live in cc
cancelling-IsOwned (some b) phase rs h r e live o =
    let (a, at, named) = o.only h r e live in
    let (p, q, g, id, alive) = o.owns in
    let same : b.handle ≡ h = cc in
    let g' = rw same at g in
    let w : q ≡ r = cc in
    record {
      owns = (inr (ap cancelling (ap (λ (x : Run). x.state.id) (sym w) ∙ id)), q, g, id, alive);
      only = o.only;
    }

pub abort-IsConsistent : (h : ℕ) (s : System) → IsConsistent s → IsConsistent (abort h s)
unfolding abort abort_first abort_second abort_run abort_agent settle_agent
abort-IsConsistent h s c = elim (Option-cases (get_elem? s.runs h)) [
  | inl e ↦ rw (e, abort, abort_first) c
  | inr (r, e) ↦
      rw (e, abort, abort_first)
        (elim (Bool-cases (is_terminal r.state.phase)) [
          | inl done ↦
              rw done
                (set_run-IsOwned s.agent.active s.agent.state.phase s.runs h r _ e (refl, refl) c)
          | inr live ↦ elim (Bool-cases (is_created r.state.phase)) [
            | inl new ↦
                rw (live, new)
                  (end-IsOwned s.agent.active s.agent.state.phase s.runs h r _ e live refl c)
            | inr old ↦
                rw (live, old)
                  (set_run-IsOwned s.agent.active (cancelling r.state.id) s.runs h r _ e
                    (refl, refl)
                    (cancelling-IsOwned s.agent.active s.agent.state.phase s.runs h r e live c))
          ]
        ])
]

pub drop_handle-IsConsistent :
    (h : ℕ) (s : System) → IsConsistent s → IsConsistent (drop_handle h s)
unfolding drop_handle
drop_handle-IsConsistent h s c = elim (Option-cases (get_elem? s.runs h)) [
  | inl e ↦ rw (e, drop_handle) c
  | inr (r, e) ↦
      rw (e, drop_handle)
        (elim (Bool-cases (is_terminal r.state.phase)) [
          | inl done ↦ rw done c
          | inr live ↦ rw live (abort-IsConsistent h s c)
        ])
]

-- The run that an idle agent's phase does not name.
owner-idle : (phase : AgentPhase) → owner phase ≡ none → phase ≡ idle
owner-idle idle e = refl
owner-idle (running n) e = cc
owner-idle (cancelling n) e = cc

allocate_users-phase :
    (contents : List Text) (s : AgentState) → (allocate_users contents s).0.phase ≡ s.phase
unfolding allocate_users
allocate_users-phase [] s = refl
allocate_users-phase (content ∷ contents) s = allocate_users-phase contents _

pub start_run-IsConsistent :
    (contents : List Text) (skip : Bool) (s : System)
    → IsConsistent s
    → IsConsistent (start_run contents skip s).0
unfolding start_run
start_run-IsConsistent contents skip s c = elim (Option-cases (owner s.agent.state.phase)) [
  | inl e ↦
      rw (e, start_run)
        (start-IsOwned s.agent.active s.runs _ (sat_add s.agent.next_run_id 1) refl refl
          (rw (owner-idle s.agent.state.phase e) at c))
  | inr (n, e) ↦ rw (e, start_run) c
]

drain_continue-same :
    (s : System) → IsConsistent s → IsConsistent (drain_continue_tail_messages s).0
unfolding drain_continue_tail_messages
drain_continue-same s c =
    elim (Bool-cases (is_empty (drain s.agent.steering_mode s.agent.queues.steering).1)) [
      | inl e ↦ rw (e, drain_continue_tail_messages) c
      | inr e ↦ rw (e, drain_continue_tail_messages) c
    ]

continue_tail-IsConsistent : (s : System) → IsConsistent s → IsConsistent (continue_tail s).0
unfolding continue_tail
continue_tail-IsConsistent s c =
    let s' = (drain_continue_tail_messages s).0 in
    let c' = drain_continue-same s c in
    elim (Bool-cases (is_empty (drain_continue_tail_messages s).1)) [
      | inl e ↦ rw (e, continue_tail) c'
      | inr e ↦ rw (e, continue_tail) (start_run-IsConsistent _ true s' c')
    ]

continue_from-IsConsistent :
    (m : Option AgentMessage) (s : System) → IsConsistent s → IsConsistent (continue_from m s).0
unfolding continue_from
continue_from-IsConsistent none s c = c
continue_from-IsConsistent (some (assistant _)) s c = continue_tail-IsConsistent s c
continue_from-IsConsistent (some (user _ _)) s c = start_run-IsConsistent [] false s c
continue_from-IsConsistent (some (tool_result _)) s c = start_run-IsConsistent [] false s c

pub start_continue-IsConsistent : (s : System) → IsConsistent s → IsConsistent (start_continue s).0
unfolding start_continue
start_continue-IsConsistent s c = elim (Option-cases (owner s.agent.state.phase)) [
  | inl e ↦ rw (e, start_continue) (continue_from-IsConsistent (last? s.agent.state.messages) s c)
  | inr (n, e) ↦ rw (e, start_continue) c
]

pub start_compaction-IsConsistent :
    (s : System) → IsConsistent s → IsConsistent (start_compaction s).0
unfolding start_compaction
start_compaction-IsConsistent s c = elim (Option-cases (owner s.agent.state.phase)) [
  | inr (n, e) ↦ rw (e, start_compaction) c
  | inl e ↦ elim (Option-cases s.agent.compactor) [
    | inl q ↦ rw (e, q, start_compaction) c
    | inr (compactor, q) ↦
        rw (e, q, start_compaction)
          (start-IsOwned s.agent.active s.runs _ (sat_add s.agent.next_run_id 1) refl refl
            (rw (owner-idle s.agent.state.phase e) at c))
  ]
]

-- A commit changes neither the marker nor the phase nor a run.
commit_replacement-IsConsistent :
    (replacement : List AgentMessage) (h : ℕ) (s : System)
    → IsConsistent s
    → IsConsistent (commit_replacement replacement h s).0
unfolding commit_replacement replace_messages
commit_replacement-IsConsistent replacement h s c = elim (Option-cases (get_elem? s.runs h)) [
  | inl e ↦ rw (e, commit_replacement) c
  | inr (r, e) ↦ elim (Bool-cases r.is_cancelled) [
    | inl gone ↦ rw (e, gone, commit_replacement) c
    | inr live ↦ elim (Bool-cases (runs_as r.state.id s.agent.state.phase)) [
      | inl own ↦ rw (e, live, own, commit_replacement) c
      | inr other ↦ rw (e, live, other, commit_replacement) c
    ]
  ]
]

pub commit_compaction-IsConsistent :
    (replacement : List AgentMessage) (h : ℕ) (s : System)
    → IsConsistent s
    → IsConsistent (commit_compaction replacement h s).0
unfolding commit_compaction
commit_compaction-IsConsistent replacement h s c =
    elim (Option-cases (validate_messages replacement)) [
      | inl e ↦ rw (e, commit_compaction) (commit_replacement-IsConsistent replacement h s c)
      | inr (bad, e) ↦ rw (e, commit_compaction) c
    ]
