-- ===== src/Agent/Steps/Owned.antt =====
-- Who owns the agent: its active-run marker, its phase and the store of runs agree.
use pi_agent_core_rs.Prelude.{
  ℕ, zero, suc, ◌≡◌, ◌≢◌, refl, sym, ap, ◌∙◌, ◌⊎◌, inl, inr, true, false, List, [], ◌∷◌, ◌++◌,
  Option, none, some, length, get_elem?,
}
use native.Mathlib.Decide.{ℕ_discrete}
use pi_agent_core_rs.State.Types.{AgentPhase, idle, running, cancelling, is_terminal}
use pi_agent_core_rs.Agent.State.{Run, ActiveRun, set_run}

-- Reading a store behind a write.
pub get-set_run_same :
    (rs : List Run) (h : ℕ) (r r' : Run)
    → get_elem? rs h ≡ some r
    → get_elem? (set_run h r' rs) h ≡ some r'
unfolding set_run
get-set_run_same [] h r r' e = cc
get-set_run_same (x ∷ rs) zero r r' e = refl
get-set_run_same (x ∷ rs) (suc h) r r' e = get-set_run_same rs h r r' e

pub get-set_run_other :
    (rs : List Run) (h j : ℕ) (r' : Run) → h ≢ j → get_elem? (set_run h r' rs) j ≡ get_elem? rs j
unfolding set_run
get-set_run_other [] h j r' n = refl
get-set_run_other (x ∷ rs) zero zero r' n = absurd (n refl)
get-set_run_other (x ∷ rs) zero (suc j) r' n = refl
get-set_run_other (x ∷ rs) (suc h) zero r' n = refl
get-set_run_other (x ∷ rs) (suc h) (suc j) r' n = get-set_run_other rs h j r' (λ e. n (ap suc e))

-- A cell of an extended store is the new one or an old one.
pub get-append_cases :
    (rs : List Run) (new : Run) (j : ℕ) (r : Run)
    → get_elem? (rs ++ new ∷ []) j ≡ some r
    → ((j ≡ length rs) × (r ≡ new)) ⊎ (get_elem? rs j ≡ some r)
get-append_cases [] new zero r e = inl (refl, cc)
get-append_cases [] new (suc j) r e = cc
get-append_cases (x ∷ rs) new zero r e = inr e
get-append_cases (x ∷ rs) new (suc j) r e = elim (get-append_cases rs new j r e) [
  | inl p ↦ inl (ap suc p.0, p.1)
  | inr q ↦ inr q
]

pub get-append_new : (rs : List Run) (new : Run) → get_elem? (rs ++ new ∷ []) (length rs) ≡ some new
get-append_new [] new = refl
get-append_new (x ∷ rs) new = get-append_new rs new

pub get-append_old :
    (rs : List Run) (new : Run) (j : ℕ) {r : Run}
    → get_elem? rs j ≡ some r
    → get_elem? (rs ++ new ∷ []) j ≡ some r
get-append_old [] new j e = cc
get-append_old (x ∷ rs) new zero e = e
get-append_old (x ∷ rs) new (suc j) e = get-append_old rs new j e

abbrev pub IsLive : Run → Type 0
IsLive r = is_terminal r.state.phase ≡ false

-- The phase of an agent that the run `id` owns.
abbrev pub PhaseOf : ℕ → AgentPhase → Type 0
PhaseOf id phase = (phase ≡ running id) ⊎ (phase ≡ cancelling id)

-- The marker names a live run and the phase names it, too.
abbrev pub Owns : Option ActiveRun → AgentPhase → List Run → Type 0
Owns none phase rs = phase ≡ idle
Owns (some a) phase rs =
    PhaseOf a.id phase
    × (r : Run) × (get_elem? rs a.handle ≡ some r)
    × (r.state.id ≡ a.id)
    × IsLive r

pub record IsOwned (active : Option ActiveRun) (phase : AgentPhase) (rs : List Run) : Type 0 where
  pub owns : Owns active phase rs
  pub only :
      (h : ℕ) (r : Run)
      → get_elem? rs h ≡ some r
      → IsLive r
      → (a : ActiveRun) × (active ≡ some a) × (a.handle ≡ h)

-- A cell that is written with a run of the same ID that is as live as the one before.
abbrev pub SameLife : Run → Run → Type 0
SameLife r r' =
    (r'.state.id ≡ r.state.id) × (is_terminal r'.state.phase ≡ is_terminal r.state.phase)

pub set-cell :
    (rs : List Run) (h j : ℕ) (r r' q : Run)
    → get_elem? rs h ≡ some r
    → get_elem? (set_run h r' rs) j ≡ some q
    → ((j ≡ h) × (q ≡ r')) ⊎ (get_elem? rs j ≡ some q)
set-cell rs h j r r' q e g = elim (ℕ_discrete h j) [
  | yes p ↦
      let same = rw p at (get-set_run_same rs h r r' e) in
      let g' = rw p at g in inl (sym p, some_inj (sym g' ∙ same))
  | no n ↦ inr (sym (get-set_run_other rs h j r' n) ∙ g)
]
  where
    some_inj : {a b : Run} → some a ≡ some b → a ≡ b
    some_inj p = cc

pub set_run-IsOwned :
    (active : Option ActiveRun) (phase : AgentPhase) (rs : List Run) (h : ℕ) (r r' : Run)
    → get_elem? rs h ≡ some r
    → SameLife r r'
    → IsOwned active phase rs
    → IsOwned active phase (set_run h r' rs)
set_run-IsOwned active phase rs h r r' e same o = record {
  owns = owner active o.owns;
  only = λ j q g live. elim (set-cell rs h j r r' q e g) [
    | inl (p, w) ↦
        let (a, at, named) = o.only h r e (sym (same.1) ∙ rw (← w) live) in (a, at, named ∙ sym p)
    | inr old ↦ o.only j q old live
  ];
}
  where
    owner : (active : Option ActiveRun) → Owns active phase rs → Owns active phase (set_run h r' rs)
    owner none w = w
    owner (some a) (p, q, g, id, live) = elim (ℕ_discrete h a.handle) [
      | yes s ↦
          let g' = rw (← s) at g in
          let w : q ≡ r = cc in
          (
            p,
            r',
            rw (← s) (get-set_run_same rs h r r' e),
            same.0 ∙ (rw w at id),
            same.1 ∙ (rw w at live),
          )
      | no n ↦ (p, q, get-set_run_other rs h a.handle r' n ∙ g, id, live)
    ]

-- The owner's run ends: its cell is written with a terminal run, and the agent becomes idle.
pub end-IsOwned :
    (active : Option ActiveRun) (phase : AgentPhase) (rs : List Run) (h : ℕ) (r r' : Run)
    → get_elem? rs h ≡ some r
    → IsLive r
    → is_terminal r'.state.phase ≡ true
    → IsOwned active phase rs
    → IsOwned none idle (set_run h r' rs)
end-IsOwned active phase rs h r r' e live over o = record {
  owns = refl;
  only = λ j q g alive. elim (set-cell rs h j r r' q e g) [
    | inl (p, w) ↦ let over' = rw (← w) at over in cc
    | inr old ↦
        let (a, at, named) = o.only j q old alive in
        let (b, at', named') = o.only h r e live in
        let same : h ≡ j = cc in
        let g' = rw (← same) at g in
        let now = get-set_run_same rs h r r' e in
        let w : q ≡ r' = cc in let over' = rw (← w) at over in cc
  ];
}

-- A run starts on an idle agent, in a new cell.
pub start-IsOwned :
    (active : Option ActiveRun) (rs : List Run) (new : Run) (id : ℕ)
    → IsLive new
    → new.state.id ≡ id
    → IsOwned active idle rs
    → IsOwned (some (record { id = id; handle = length rs })) (running id) (rs ++ new ∷ [])
start-IsOwned active rs new id live named o = record {
  owns = (inl refl, new, get-append_new rs new, named, live);
  only = λ j q g alive. elim (get-append_cases rs new j q g) [
    | inl (p, w) ↦ (record { id = id; handle = length rs }, refl, sym p)
    | inr old ↦ absurd (none_live j q old alive)
  ];
}
  where
    not_idle : (n : ℕ) → ¬ PhaseOf n idle
    not_idle n (inl p) = cc
    not_idle n (inr p) = cc

    nobody : (active : Option ActiveRun) → Owns active idle rs → active ≡ none
    nobody none w = refl
    nobody (some a) w = absurd (not_idle a.id (w.0))

    none_live : (j : ℕ) (q : Run) → get_elem? rs j ≡ some q → ¬ IsLive q
    none_live j q old alive =
        let (a, at, h) = o.only j q old alive in let n = nobody active o.owns in cc
