-- ===== src/Agent/Steps/Outcomes.antt =====
-- The outcome of a run that has settled is final.
use pi_agent_core_rs.Prelude.{
  ℕ, ◌≡◌, refl, ◌∙◌, inl, inr, true, List, [], ◌∷◌, ◌++◌, Option, some, Text, arith, get_elem?,
  Option-cases, Bool-cases,
}
use native.Mathlib.Decide.{ℕ_discrete}
use pi_agent_core_rs.State.Types.{RunPhase, is_terminal, StopReason}
use pi_agent_core_rs.Agent.Events.{AgentEventKind}
use pi_agent_core_rs.Agent.State.{Run, System, set_run}
use pi_agent_core_rs.Agent.Run.{
  Change, start_turn, advance_turn, begin_settlement, record_event, on_run, finish, abort_run,
  abort_first, abort_second, abort, drop_handle,
}
use pi_agent_core_rs.Agent.Steps.Owned.{get-set_run_same, get-set_run_other, get-append_old}

-- Two states of one run with the same outcome.
pub record SameOutcome (r r' : Run) : Type 0 where
  pub same_id : r'.state.id ≡ r.state.id
  pub same_phase : r'.state.phase ≡ r.state.phase
  pub same_reason : r'.state.stop_reason ≡ r.state.stop_reason
  pub same_error : r'.state.error ≡ r.state.error

pub same_outcome : (r : Run) → SameOutcome r r
same_outcome r = record { same_id = refl; same_phase = refl; same_reason = refl; same_error = refl }

-- Every run that has settled in one store has the same outcome in the other.
abbrev pub KeepsOutcomes : List Run → List Run → Type 0
KeepsOutcomes rs rs' =
    (h : ℕ) (r : Run)
    → get_elem? rs h ≡ some r
    → is_terminal r.state.phase ≡ true
    → (r' : Run) × (get_elem? rs' h ≡ some r') × SameOutcome r r'

pub keeps_same : (rs : List Run) → KeepsOutcomes rs rs
keeps_same rs h r e over = (r, e, same_outcome r)

pub keeps_append : (rs : List Run) (new : Run) → KeepsOutcomes rs (rs ++ new ∷ [])
keeps_append rs new h r e over = (r, get-append_old rs new h e, same_outcome r)

pub keeps_set :
    (rs : List Run) (h : ℕ) (r r' : Run)
    → get_elem? rs h ≡ some r
    → (is_terminal r.state.phase ≡ true → SameOutcome r r')
    → KeepsOutcomes rs (set_run h r' rs)
keeps_set rs h r r' e same j q g over = elim (ℕ_discrete h j) [
  | yes p ↦
      let e' = rw p at e in
      let w : r ≡ q = cc in
      (r', rw (← p) (get-set_run_same rs h r r' e), rw (← w) (same (rw w over)))
  | no n ↦ (q, get-set_run_other rs h j r' n ∙ g, same_outcome q)
]

pub keeps_trans : (a b c : List Run) → KeepsOutcomes a b → KeepsOutcomes b c → KeepsOutcomes a c
keeps_trans a b c f g h r e over =
    let (r', e', s) = f h r e over in
    let (r'', e'', t) = g h r' e' (rw s.same_phase over) in
    (
      r'',
      e'',
      record {
        same_id = t.same_id ∙ s.same_id;
        same_phase = t.same_phase ∙ s.same_phase;
        same_reason = t.same_reason ∙ s.same_reason;
        same_error = t.same_error ∙ s.same_error;
      },
    )

abbrev pub Keeps : System → System → Type 0
Keeps s s' = KeepsOutcomes s.runs s'.runs

pub on_run-Keeps :
    (method : Run → Change) (h : ℕ) (s : System)
    → ((r : Run) → is_terminal r.state.phase ≡ true → SameOutcome r (method r).0)
    → Keeps s (on_run method h s).0
unfolding on_run
on_run-Keeps method h s same = elim (Option-cases (get_elem? s.runs h)) [
  | inl e ↦ rw (e, on_run) (keeps_same s.runs)
  | inr (r, e) ↦ rw (e, on_run) (keeps_set s.runs h r (method r).0 e (same r))
]

pub start_turn-final :
    (turn_id : ℕ) (r : Run)
    → is_terminal r.state.phase ≡ true
    → SameOutcome r (start_turn turn_id r).0
unfolding start_turn
start_turn-final turn_id r over = ground arith

pub advance_turn-final :
    (turn_id : ℕ) (r : Run)
    → is_terminal r.state.phase ≡ true
    → SameOutcome r (advance_turn turn_id r).0
unfolding advance_turn
advance_turn-final turn_id r over = ground arith

pub begin_settlement-final :
    (r : Run) → is_terminal r.state.phase ≡ true → SameOutcome r (begin_settlement r).0
unfolding begin_settlement
begin_settlement-final r over = ground arith

pub record_event-final :
    (kind : AgentEventKind) (r : Run)
    → is_terminal r.state.phase ≡ true
    → SameOutcome r (record_event kind r).0
unfolding record_event
record_event-final kind r over = record {
  same_id = refl;
  same_phase = refl;
  same_reason = refl;
  same_error = refl;
}

pub finish-Keeps :
    (phase : RunPhase) (reason : StopReason) (error : Option Text) (h : ℕ) (s : System)
    → Keeps s (finish phase reason error h s).0
unfolding finish
finish-Keeps phase reason error h s = elim (Option-cases (get_elem? s.runs h)) [
  | inl e ↦ rw (e, finish) (keeps_same s.runs)
  | inr (r, e) ↦ elim (Bool-cases (is_terminal r.state.phase)) [
    | inl done ↦ rw (e, done, finish) (keeps_same s.runs)
    | inr live ↦ rw (e, live, finish) (keeps_set s.runs h r _ e (λ over. cc))
  ]
]

abort_run-final : (r : Run) → is_terminal r.state.phase ≡ true → SameOutcome r (abort_run r).0
unfolding abort_run
abort_run-final r over = ground arith

pub abort-Keeps : (h : ℕ) (s : System) → Keeps s (abort h s)
unfolding abort abort_first abort_second
abort-Keeps h s = elim (Option-cases (get_elem? s.runs h)) [
  | inl e ↦ rw (e, abort, abort_first) (keeps_same s.runs)
  | inr (r, e) ↦
      rw (e, abort, abort_first) (keeps_set s.runs h r (abort_run r).0 e (abort_run-final r))
]

pub drop_handle-Keeps : (h : ℕ) (s : System) → Keeps s (drop_handle h s)
unfolding drop_handle
drop_handle-Keeps h s = elim (Option-cases (get_elem? s.runs h)) [
  | inl e ↦ rw (e, drop_handle) (keeps_same s.runs)
  | inr (r, e) ↦ elim (Bool-cases (is_terminal r.state.phase)) [
    | inl done ↦ rw (e, done, drop_handle) (keeps_same s.runs)
    | inr live ↦ rw (e, live, drop_handle) (abort-Keeps h s)
  ]
]
