-- ===== src/Turn/Compact/Steps.antt =====
-- The steps of an automatic compaction before its commit, which leave the transcript as it is.
use pi_agent_core_rs.Prelude.{ℕ, Bool, true, false, List, Text, refl, if◌then◌else◌}
use pi_agent_core_rs.State.Types.{AgentMessage}
use pi_agent_core_rs.Tool.Truncate.{truncate_middle}
use pi_agent_core_rs.Compaction.Policy.{AutomaticCompactionReason}
use pi_agent_core_rs.Compaction.Split.{CompactionSplit}
use pi_agent_core_rs.Agent.Events.{AutomaticCompactionOutcome, AgentEventKind}
use pi_agent_core_rs.Agent.State.{CoreError, AgentState}
use pi_agent_core_rs.Turn.Host.{ContextEnvelope, HookResult, accepted, refused, Host}
use pi_agent_core_rs.Turn.Exec.{Result, ok, err, pure, throw, is_cancelled, call_hook, emit}
use pi_agent_core_rs.Turn.Exec.Quiet.{
  Quiet, quiet_rules, Quiet-is_cancelled, Quiet-call_hook, Quiet-emit,
}
use pi_agent_core_rs.Turn.Exec.Steady.{Accepting}
use pi_agent_core_rs.Turn.Response.Ensures.{Assertion, Ensures, Ensures-bind}
use pi_agent_core_rs.Turn.Compact.{
  require, build_provider_context, give_up, give_up_cancelled, give_up_failed, compaction_failed,
  provider_contexts, or_failed, or_refused, Compactor, propose,
}
use pi_agent_core_rs.Turn.Compact.Calm.{
  Calm, Ensures-past, Quiet-set_policy_state, Calm-set_policy_state, Quiet-attempt, Calm-attempt,
  Ensures-throw, Ensures-pure_any,
}

module _ {W Json : Type 0} (host : Host W Json) (accepting : Accepting host) where
  pub Calm-emit : (kind : AgentEventKind) → Calm (emit host kind)
  unfolding emit
  Calm-emit kind = record { at = λ t. (tt, rw accepting refl) }

  pub Calm-is_cancelled : Calm (is_cancelled host)
  unfolding is_cancelled
  Calm-is_cancelled = record { at = λ t. (host.is_cancelled t.world, refl) }

  pub Calm-call_hook : {A : Type 0} (f : W → HookResult A × W) → Calm (call_hook host f)
  unfolding call_hook
  Calm-call_hook f = record { at = λ t. ((f t.world).0, refl) }

  Quiet-require : {A : Type 0} (r : HookResult A) → Quiet (require host r)
  unfolding require throw
  Quiet-require (accepted a) = search quiet_rules
  Quiet-require (refused message) = record {
    at = λ t. record { messages = refl; next_message_id = refl };
  }

  Quiet-build_provider_context :
      (context : ContextEnvelope) → Quiet (build_provider_context host context)
  unfolding build_provider_context
  Quiet-build_provider_context context =
      search (quiet_rules, Quiet-call_hook, Quiet-require) depth 9

  module _ (reason : AutomaticCompactionReason) (retry : Bool) (P : Assertion) where
    pub Ensures-give_up :
        {A : Type 0} (outcome : AutomaticCompactionOutcome) (e : CoreError) (Q : A → Assertion)
        → Ensures P (give_up host reason retry outcome e) Q P
    unfolding give_up
    Ensures-give_up outcome e Q =
        Ensures-past _ _ (Quiet-emit host _) (Calm-emit _) (λ _. Ensures-throw e Q P)

    pub Ensures-give_up_cancelled :
        {A : Type 0} (Q : A → Assertion) → Ensures P (give_up_cancelled host reason retry) Q P
    unfolding give_up_cancelled
    Ensures-give_up_cancelled Q =
        Ensures-past _ _ (Quiet-set_policy_state _) (Calm-set_policy_state _)
          λ _. Ensures-give_up _ _ Q

    Ensures-compaction_failed :
        {A : Type 0} (message : Text) (Q : A → Assertion)
        → Ensures P (compaction_failed host reason retry message) Q P
    unfolding compaction_failed give_up_failed
    Ensures-compaction_failed message Q =
        Ensures-past _ _ (Quiet-is_cancelled host) Calm-is_cancelled either
      where
        either :
            (stopped : Bool)
            → Ensures P
                (if stopped
                  then give_up_cancelled host reason retry
                  else give_up_failed host reason retry (truncate_middle message 1024))
                Q
                P
        either true = Ensures-give_up_cancelled Q
        either false = Ensures-give_up _ _ Q

    Ensures-or_failed :
        {A : Type 0} (r : Result A) → Ensures P (or_failed host reason retry r) (λ _. P) P
    unfolding or_failed
    Ensures-or_failed (ok a) = Ensures-pure_any a P P
    Ensures-or_failed (err e) = Ensures-compaction_failed _ _

    Ensures-or_refused :
        {A : Type 0} (r : HookResult A) → Ensures P (or_refused host reason retry r) (λ _. P) P
    unfolding or_refused
    Ensures-or_refused (accepted a) = Ensures-pure_any a P P
    Ensures-or_refused (refused e) = Ensures-compaction_failed _ _

    pub Ensures-propose :
        (before : ℕ) (split : CompactionSplit) (s : AgentState) (c : Compactor host reason retry)
        → Ensures P (propose host reason retry before split s c) (λ _. P) P
    unfolding propose provider_contexts Compactor
    Ensures-propose before split s c =
        Ensures-past _ _ (Quiet-attempt _ (search (quiet_rules, Quiet-build_provider_context)))
          (Calm-attempt _)
          λ r.
            Ensures-bind (λ _. P) _ _ (Ensures-or_failed r)
              λ context. Ensures-past _ _ (Quiet-call_hook host _) (Calm-call_hook _) λ proposal.
                Ensures-bind (λ _. P) _ _ (Ensures-or_refused proposal)
                  λ messages.
                    Ensures-past _ _ (Quiet-is_cancelled host) Calm-is_cancelled (unless messages)
      where
        unless :
            (messages : List AgentMessage) (stopped : Bool)
            → Ensures P
                (if stopped then give_up_cancelled host reason retry else pure messages)
                (λ _. P)
                P
        unless messages true = Ensures-give_up_cancelled _
        unless messages false = Ensures-pure_any messages P P
