-- ===== src/Turn/Compact/Commit.antt =====
-- The checks of a proposal, and its commit.
use pi_agent_core_rs.Prelude.{
  ℕ, Bool, true, false, not, ◌&&◌, ◌-◌, List, [], ◌∷◌, ◌++◌, Option, none, some, ◌≡◌, refl, sym,
  ◌∙◌, ap, arith, length, take, drop, take-append-drop, is_empty, Bool-cases, inl, inr,
}
use mathlib.Core.List.{append-nil}
use pi_agent_core_rs.State.Equality.{message_eq}
use pi_agent_core_rs.State.Equality.Sound.{message_eq-IsSound}
use pi_agent_core_rs.State.Types.{AgentMessage}
use pi_agent_core_rs.Compaction.Policy.{AutomaticCompactionReason}
use pi_agent_core_rs.Compaction.Split.{automatic_compaction_split}
use pi_agent_core_rs.Compaction.Validate.{InvalidReplacement, validate_messages}
use pi_agent_core_rs.Agent.State.{replace_messages}
use pi_agent_core_rs.Agent.Start.{runs_as}
use pi_agent_core_rs.Turn.Host.{Host}
use pi_agent_core_rs.Turn.Exec.{Result, ok, err, pure}
use pi_agent_core_rs.Turn.Exec.Quiet.{quiet_rules, Quiet-emit}
use pi_agent_core_rs.Turn.Exec.Steady.{Accepting}
use pi_agent_core_rs.Turn.Response.Ensures.{Assertion, Ensures}
use pi_agent_core_rs.Turn.Compact.{
  Estimator, all_same, ends_with, attempt, give_up_failed, commit, is_cancellation, or_cancelled,
  check_suffix, check_valid, finish_compaction,
}
use pi_agent_core_rs.Turn.Compact.Calm.{
  Ensures-past, Quiet-set_policy_state, Calm-set_policy_state, Calm-gets, Ensures-throw,
}
use pi_agent_core_rs.Turn.Compact.Steps.{Calm-emit, Ensures-give_up, Ensures-give_up_cancelled}

-- The transcript and the next ID are still these.
abbrev pub Unchanged : List AgentMessage → ℕ → Assertion
Unchanged old n messages next = (messages ≡ old) × (next ≡ n)

-- The transcript is a valid one that ends with the messages to be retained.
abbrev pub Compacted : List AgentMessage → ℕ → Assertion
Compacted old recent messages next =
    (validate_messages messages ≡ none)
    × ((front : List AgentMessage) × (messages
          ≡ front ++ (automatic_compaction_split old recent).retained_messages))

all_same-≡ :
    (same : AgentMessage → AgentMessage → Bool)
    → ((a b : AgentMessage) → same a b ≡ true → a ≡ b)
    → (ms ns : List AgentMessage) → all_same same ms ns ≡ true
    → ms ≡ ns
unfolding all_same
all_same-≡ same sound [] [] h = refl
all_same-≡ same sound [] (n ∷ ns) h = cc
all_same-≡ same sound (m ∷ ms) [] h = cc
all_same-≡ same sound (m ∷ ms) (n ∷ ns) h =
    let head = sound m n (ground arith) in
    let tail = all_same-≡ same sound ms ns (ground arith) in λ i. head i ∷ tail i

ends_with-suffix :
    (same : AgentMessage → AgentMessage → Bool)
    → ((a b : AgentMessage) → same a b ≡ true → a ≡ b)
    → (messages suffix : List AgentMessage) → ends_with same messages suffix ≡ true
    → (front : List AgentMessage) × (messages ≡ front ++ suffix)
unfolding ends_with
ends_with-suffix same sound messages suffix h =
    let k = length messages - length suffix in
    let e = all_same-≡ same sound (drop k messages) suffix (ground arith) in
    (
      take k messages,
      sym (take-append-drop k messages) ∙ ap (λ (t : List AgentMessage). take k messages ++ t) e,
    )

-- What a return value tells.
abbrev pub Told : List AgentMessage → ℕ → ℕ → Bool × Estimator → Assertion
Told old n recent (true, _) = Compacted old recent
Told old n recent (false, _) = Unchanged old n

abbrev pub Exactly : List AgentMessage → Assertion
Exactly replacement messages next = messages ≡ replacement

-- A proposal that passes the checks.
abbrev pub PassesChecks :
    List AgentMessage
    → ℕ
    → List AgentMessage
    → List AgentMessage
    → Option InvalidReplacement
    → Assertion
PassesChecks old n retained messages v ms next =
    Unchanged old n ms next
    × (v ≡ none)
    × ((front : List AgentMessage) × (messages ≡ front ++ retained))

-- What an attempted commit leaves.
abbrev pub Attempted : List AgentMessage → ℕ → List AgentMessage → Result (Unit {0}) → Assertion
Attempted old n messages (ok _) = Exactly messages
Attempted old n messages (err _) = Unchanged old n

module _ {W Json : Type 0} (host : Host W Json) (accepting : Accepting host)
    (reason : AutomaticCompactionReason) (retry : Bool) (old : List AgentMessage) (n : ℕ) where
  suffix_found :
      (messages retained : List AgentMessage)
      → (not (is_empty retained) && not (ends_with message_eq messages retained)) ≡ false
      → (front : List AgentMessage) × (messages ≡ front ++ retained)
  suffix_found messages [] h = (messages, sym (append-nil messages))
  suffix_found messages (m ∷ ms) h =
      ends_with-suffix message_eq message_eq-IsSound messages (m ∷ ms) (ground arith)

  Ensures-check_suffix :
      (retained messages : List AgentMessage)
      → Ensures
          (Unchanged old n)
          (check_suffix host reason retry retained messages)
          (λ _. PassesChecks old n retained messages none)
          (Unchanged old n)
  unfolding check_suffix
  Ensures-check_suffix retained messages =
      elim (Bool-cases (not (is_empty retained) && not (ends_with message_eq messages retained))) [
        | inl h ↦ rw h (Ensures-give_up host accepting reason retry (Unchanged old n) _ _ _)
        | inr h ↦
            rw h (unfold pure in record { at = λ t p. (p, refl, suffix_found messages retained h) })
      ]

  pub Ensures-check_valid :
      (retained messages : List AgentMessage) (v : Option InvalidReplacement)
      → Ensures
          (Unchanged old n)
          (check_valid host reason retry retained messages v)
          (λ _. PassesChecks old n retained messages v)
          (Unchanged old n)
  unfolding check_valid give_up_failed
  Ensures-check_valid retained messages none = Ensures-check_suffix retained messages
  Ensures-check_valid retained messages (some e) =
      Ensures-give_up host accepting reason retry (Unchanged old n) _ _ _

  pub Ensures-commit :
      (messages : List AgentMessage)
      → Ensures
          (Unchanged old n)
          (attempt (commit host reason retry messages))
          (Attempted old n messages)
          (Unchanged old n)
  unfolding attempt commit replace_messages
  Ensures-commit messages = record {
    at = λ t p. elim (Bool-cases (host.is_cancelled t.world)) [
      | inl h ↦ rw h p
      | inr h ↦ elim (Bool-cases (runs_as t.run.id t.state.phase)) [
        | inl k ↦ rw (h, k) refl
        | inr k ↦ rw (h, k) p
      ]
    ];
  }

  pub Ensures-or_cancelled :
      (messages : List AgentMessage) (r : Result (Unit {0}))
      → Ensures
          (Attempted old n messages r)
          (or_cancelled host reason retry r)
          (λ _. Exactly messages)
          (Unchanged old n)
  unfolding or_cancelled
  Ensures-or_cancelled messages (ok u) = unfold pure in record { at = λ t p. p }
  Ensures-or_cancelled messages (err e) = elim (Bool-cases (is_cancellation host reason retry e)) [
    | inl h ↦ rw h (Ensures-give_up_cancelled host accepting reason retry (Unchanged old n) _)
    | inr h ↦ rw h (Ensures-throw e _ _)
  ]

  pub Ensures-finish_compaction :
      (messages : List AgentMessage)
      → Ensures
          (Exactly messages)
          (finish_compaction host reason retry)
          (λ r ms next. (r.0 ≡ true) × Exactly messages ms next)
          (Unchanged old n)
  unfolding finish_compaction
  Ensures-finish_compaction messages = Ensures-past _ _ (search quiet_rules) (Calm-gets _) λ after.
      Ensures-past _ _ (search quiet_rules) (Calm-gets _) λ count.
        Ensures-past _ _ (Quiet-set_policy_state _) (Calm-set_policy_state _) λ _.
          Ensures-past _ _ (Quiet-emit host _) (Calm-emit host accepting _)
            λ _. unfold pure in record { at = λ t p. (refl, p) }
