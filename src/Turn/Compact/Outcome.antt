-- ===== src/Turn/Compact/Outcome.antt =====
-- What an automatic compaction does to the transcript.
use pi_agent_core_rs.Prelude.{
  ℕ, Bool, true, false, not, ◌&&◌, ◌||◌, List, Option, none, some, ◌≡◌, refl, leb, Bool-cases, inl,
  inr, ltb,
}
use pi_agent_core_rs.State.Types.{AgentMessage}
use pi_agent_core_rs.Compaction.Policy.{AutomaticCompactionReason, threshold_tokens}
use pi_agent_core_rs.Compaction.Validate.{validate_messages}
use pi_agent_core_rs.Agent.State.{AgentState}
use pi_agent_core_rs.Turn.Host.{Host, Turn}
use pi_agent_core_rs.Turn.Exec.{Result, ok, err, pure, gets}
use pi_agent_core_rs.Turn.Exec.Quiet.{quiet_rules, Quiet-emit}
use pi_agent_core_rs.Turn.Exec.Steady.{Accepting}
use pi_agent_core_rs.Turn.Response.Ensures.{Leaves, Ensures, Ensures-bind}
use pi_agent_core_rs.Turn.Compact.{
  Estimator, is_threshold, Compactor, commit_checked, compact_from, compact_with, compact_counted,
  compact_limited, maybe_automatic_compaction,
}
use pi_agent_core_rs.Turn.Compact.Calm.{
  Ensures-past, Quiet-set_policy_state, Calm-set_policy_state, Calm-gets,
}
use pi_agent_core_rs.Turn.Compact.Steps.{Calm-emit, Ensures-give_up, Ensures-propose}
use pi_agent_core_rs.Turn.Compact.Commit.{
  Unchanged, Compacted, Told, Exactly, PassesChecks, Attempted, Ensures-check_valid, Ensures-commit,
  Ensures-or_cancelled, Ensures-finish_compaction,
}

module _ {W Json : Type 0} (host : Host W Json) (accepting : Accepting host)
    (reason : AutomaticCompactionReason) (retry : Bool) (old : List AgentMessage) (n : ℕ) where
  told_compacted :
      (recent : ℕ) (messages : List AgentMessage) (r : Bool × Estimator)
      → (ms : List AgentMessage) (next : ℕ) → Compacted old recent messages next
      → r.0 ≡ true
      → ms ≡ messages
      → Told old n recent r ms next
  told_compacted recent messages (true, e) ms next c h q = rw q c
  told_compacted recent messages (false, e) ms next c h q = cc

  module _ (recent : ℕ) where
    finished_Told :
        (messages : List AgentMessage) (res : Result (Bool × Estimator))
        → (ms : List AgentMessage) (next : ℕ) → Compacted old recent messages next
        → Leaves
            (λ r ms next. (r.0 ≡ true) × Exactly messages ms next)
            (Unchanged old n)
            res
            ms
            next
        → Leaves (Told old n recent) (Unchanged old n) res ms next
    finished_Told messages (ok r) ms next c (h, q) = told_compacted recent messages r ms next c h q
    finished_Told messages (err _) ms next c h = h

    Ensures-commit_checked :
        (messages : List AgentMessage)
        → Compacted old recent messages 0
        → Ensures
            (Unchanged old n)
            (commit_checked host reason retry messages)
            (Told old n recent)
            (Unchanged old n)
    unfolding commit_checked
    Ensures-commit_checked messages c =
        Ensures-bind (Attempted old n messages) _ _
          (Ensures-commit host accepting reason retry old n messages)
          λ r.
            Ensures-bind (λ _. Exactly messages) _ _
              (Ensures-or_cancelled host accepting reason retry old n messages r)
              λ _. record {
                at = λ t p.
                    finished_Told messages _ _ _ c (
                      (Ensures-finish_compaction host accepting reason retry old n messages).at t
                        p);
              }

    module _ (before : ℕ) where
      Ensures-compact_from :
          (c : Compactor host reason retry) (s : AgentState)
          → s.messages ≡ old
          → host.automatic_compaction.recent_tokens ≡ recent
          → Ensures
              (Unchanged old n)
              (compact_from host reason retry before c s)
              (Told old n recent)
              (Unchanged old n)
      unfolding compact_from
      Ensures-compact_from c s e e' =
          Ensures-bind (λ _. Unchanged old n) _ _
            (Ensures-propose host accepting reason retry (Unchanged old n) before _ s c)
            λ messages.
              Ensures-bind (λ _. PassesChecks old n _ messages (validate_messages messages)) _ _
                (Ensures-check_valid host accepting reason retry old n _ messages
                  (validate_messages messages))
                λ _. record {
                  at = λ t (p, v, f). (Ensures-commit_checked messages (v, rw (e, e') at f)).at t p;
                }

      Ensures-compact_with :
          (c : Option (Compactor host reason retry))
          → host.automatic_compaction.recent_tokens ≡ recent
          → Ensures
              (Unchanged old n)
              (compact_with host reason retry before c)
              (Told old n recent)
              (Unchanged old n)
      unfolding compact_with
      Ensures-compact_with none e = Ensures-give_up host accepting reason retry _ _ _ _
      Ensures-compact_with (some c) e =
          Ensures-bind (λ (s : AgentState) ms next. Unchanged old n ms next × (s.messages ≡ old)) _
            _ (unfold gets in record { at = λ t p. (p, p.0) })
            (λ s. record { at = λ t (p, q). (Ensures-compact_from c s q e).at t p })

      Ensures-compact_counted :
          (count : ℕ)
          → host.automatic_compaction.recent_tokens ≡ recent
          → Ensures
              (Unchanged old n)
              (compact_counted host reason retry before count)
              (Told old n recent)
              (Unchanged old n)
      unfolding compact_counted
      Ensures-compact_counted count e =
          Ensures-past _ _ (Quiet-set_policy_state _) (Calm-set_policy_state _) λ _.
            Ensures-past _ _ (search quiet_rules) (Calm-gets _) λ k.
              Ensures-past _ _ (Quiet-emit host _) (Calm-emit host accepting _) λ _.
                Ensures-past _ _ (Quiet-emit host _) (Calm-emit host accepting _)
                  λ _. Ensures-compact_with host.compactor e

      Ensures-compact_limited :
          (count : ℕ)
          → host.automatic_compaction.recent_tokens ≡ recent
          → Ensures
              (Unchanged old n)
              (compact_limited host reason retry before count)
              (Told old n recent)
              (Unchanged old n)
      unfolding compact_limited
      Ensures-compact_limited count e = Ensures-past _ _ (search quiet_rules) (Calm-gets _) λ k.
          elim (Bool-cases (leb host.automatic_compaction.max_compactions_per_run k)) [
            | inl h ↦ rw h (Ensures-give_up host accepting reason retry _ _ _ _)
            | inr h ↦ rw h (Ensures-compact_counted count e)
          ]

    Ensures-maybe_automatic_compaction :
        (estimator : Estimator)
        → host.automatic_compaction.recent_tokens ≡ recent
        → Ensures
            (Unchanged old n)
            (maybe_automatic_compaction host reason retry estimator)
            (Told old n recent)
            (Unchanged old n)
    unfolding maybe_automatic_compaction
    Ensures-maybe_automatic_compaction estimator e =
        Ensures-past _ _ (search quiet_rules) (Calm-gets _) λ before.
          Ensures-past _ _ (search quiet_rules) (Calm-gets _) λ count.
            Ensures-past _ _ (search quiet_rules) (Calm-gets _) λ blocked.
              elim (Bool-cases (
                not host.automatic_compaction.enabled
                || (is_threshold reason
                    && (ltb before (threshold_tokens host.automatic_compaction) || blocked)))) [
                      | inl h ↦ rw h (unfold pure in record { at = λ t p. p })
                      | inr h ↦ rw h (Ensures-compact_limited before count e)
                    ]

-- Where no observer returns an error, an automatic compaction that returns `true` has replaced the
-- transcript by one that passes validation and ends with the messages that the split retains; one that returns `false` or an error has left
-- the transcript and the next message ID as they were.
pub maybe_automatic_compaction-Told :
    {W Json : Type 0} (host : Host W Json) (reason : AutomaticCompactionReason) (retry : Bool)
    → (estimator : Estimator) (t : Turn W) → Accepting host
    → let r = maybe_automatic_compaction host reason retry estimator t in
      Leaves
        (Told t.state.messages t.state.next_message_id host.automatic_compaction.recent_tokens)
        (Unchanged t.state.messages t.state.next_message_id)
        r.1
        r.0.state.messages
        r.0.state.next_message_id
maybe_automatic_compaction-Told host reason retry estimator t accepting =
    (Ensures-maybe_automatic_compaction host accepting reason retry t.state.messages
        t.state.next_message_id host.automatic_compaction.recent_tokens estimator refl).at
      t (refl, refl)
