-- ===== src/Turn/Compact.antt =====
-- run/mod.rs: `ContextEstimator`, the context of a provider, and `maybe_automatic_compaction`.
pub mod Calm
pub mod Steps
pub mod Commit
pub mod Outcome
use pi_agent_core_rs.Prelude.{
  ℕ, Bool, true, false, not, ◌&&◌, ◌||◌, List, [], ◌∷◌, ◌++◌, Option, none, some, Text, codes,
  sat_add, sat_add32, ltb, ◌-◌, leb, ◌==◌, if◌then◌else◌, length, drop, is_empty,
}
use pi_agent_core_rs.Tool.Failure.{ToolResultProjectionPolicy}
use pi_agent_core_rs.Tool.Truncate.{truncate_middle}
use pi_agent_core_rs.Tool.Projection.{project_tool_result_as_text}
use pi_agent_core_rs.Tool.Registry.{definitions}
use pi_agent_core_rs.State.Equality.{message_eq}
use pi_agent_core_rs.State.Types.{
  AgentPhase, AgentMessage, user, assistant, tool_result, ToolResultMessage,
}
use pi_agent_core_rs.Compaction.Policy.{
  AutomaticCompactionReason, threshold, overflow, tokens, AutomaticCompactionPolicy,
  threshold_tokens,
}
use pi_agent_core_rs.Compaction.Split.{
  estimate_messages_tokens, CompactionSplit, automatic_compaction_split,
}
use pi_agent_core_rs.Compaction.Validate.{InvalidReplacement, validate_messages}
use pi_agent_core_rs.Agent.Events.{
  AutomaticCompactionOutcome, AgentEventKind, automatic_compaction_start, automatic_compaction_end,
  ProviderRequestSkipReason, provider_request_skipped,
}
use pi_agent_core_rs.Agent.State.{
  CoreError, compaction, hook, automatic_compaction, automatic_compaction_unavailable, AgentState,
  replace_messages,
}
use pi_agent_core_rs.Agent.Start.{runs_as}
use pi_agent_core_rs.Turn.Host.{
  ContextEnvelope, HookResult, accepted, refused, ProviderContext, CompactionContext,
  AutomaticCompactionRequest, RunPolicyState, Host, Turn,
}
use pi_agent_core_rs.Turn.Exec.{
  Result, ok, err, Exec, ◌>>=◌, ◌>>◌, pure, throw, gets, is_cancelled, call_hook, emit,
}

-- `ContextEstimator`: the last valid input and the number of messages of its request.
abbrev pub Estimator : Type 0
Estimator = Option (ℕ × ℕ)

unfoldable pub observe_valid_input : Option ℕ → ℕ → Estimator → Estimator
observe_valid_input none count e = e
observe_valid_input (some input_tokens) count e =
    if input_tokens == 0 then e else some (input_tokens, count)

unfoldable pub estimate : Estimator → List AgentMessage → ℕ
estimate none messages = estimate_messages_tokens messages
estimate (some (input_tokens, count)) messages =
    if leb count (length messages)
    then sat_add input_tokens (estimate_messages_tokens (drop count messages))
    else estimate_messages_tokens messages

-- The loop of `project_model_context`, with the fingerprints seen so far.
project_messages : ToolResultProjectionPolicy → List ℕ → List AgentMessage → List AgentMessage
project_messages policy seen [] = []
project_messages policy seen (tool_result m ∷ ms) =
    let (projection, seen') =
      project_tool_result_as_text m.content m.details m.is_error m.failure policy seen in
    tool_result (record m { content = projection.content; details = none })
    ∷ project_messages policy seen' ms
project_messages policy seen (user id content ∷ ms) =
    user id content ∷ project_messages policy seen ms
project_messages policy seen (assistant m ∷ ms) = assistant m ∷ project_messages policy seen ms

unfoldable pub project_model_context :
    ToolResultProjectionPolicy → ContextEnvelope → ContextEnvelope
unfolding project_messages
project_model_context policy context = record context {
  messages = project_messages policy [] context.messages;
}

-- The comparison of slices by the derived equality of messages, which the host's record gives.
all_same : (AgentMessage → AgentMessage → Bool) → List AgentMessage → List AgentMessage → Bool
all_same same [] [] = true
all_same same [] (_ ∷ _) = false
all_same same (_ ∷ _) [] = false
all_same same (a ∷ ms) (b ∷ ns) = same a b && all_same same ms ns

-- `messages.ends_with(suffix)`.
unfoldable pub ends_with :
    (AgentMessage → AgentMessage → Bool) → List AgentMessage → List AgentMessage → Bool
unfolding all_same
ends_with same messages suffix =
    leb (length suffix) (length messages)
    && all_same same (drop (length messages - length suffix) messages) suffix

is_threshold : AutomaticCompactionReason → Bool
is_threshold threshold = true
is_threshold overflow = false

is_blocked : Option ℕ → ℕ → Bool
is_blocked none count = false
is_blocked (some blocked) count = blocked == count

-- The envelope of a compaction's context.
abbrev envelope : List AgentMessage → AgentState → ContextEnvelope
envelope messages s = record { version = 1; messages = messages; host_messages = s.host_messages }

module _ {W : Type 0} where
  unfoldable pub set_policy_state : (RunPolicyState → RunPolicyState) → Exec W (Unit {0})
  set_policy_state f t = (record t { policy = f t.policy }, ok tt)

  -- A result as a value, for a `match` on it.
  unfoldable pub attempt : {A : Type 0} → Exec W A → Exec W (Result A)
  attempt m t = let (t', r) = m t in (t', ok r)

abbrev count_compaction : RunPolicyState → RunPolicyState
count_compaction p = record p { automatic_compactions = sat_add32 p.automatic_compactions 1 }

abbrev mark_cancelled : RunPolicyState → RunPolicyState
mark_cancelled p = record p { compaction_cancelled = true }

abbrev block_at : ℕ → RunPolicyState → RunPolicyState
block_at count p = record p { compaction_blocked_message_count = some count }

module _ {W Json : Type 0} (host : Host W Json) where
  require : {A : Type 0} → HookResult A → Exec W A
  require (accepted a) = pure a
  require (refused message) = throw (hook message)

  unfoldable pub build_provider_context : ContextEnvelope → Exec W (ProviderContext Json)
  unfolding require
  build_provider_context context = do
    transformed ←
        call_hook host (host.transform_context (project_model_context host.projection context))
    envelope' ← require transformed
    converted ← call_hook host (host.convert_to_llm envelope')
    text ← require converted
    pure (record {
      system_prompt = host.system_prompt;
      context = text;
      active_context = none;
      tools = definitions host.tools;
    })

module _ {W Json : Type 0} (host : Host W Json) (reason : AutomaticCompactionReason)
    (retry : Bool) where
  -- The end of a compaction that does not commit.
  pub give_up : {A : Type 0} → AutomaticCompactionOutcome → CoreError → Exec W A
  give_up outcome error = do emit host (automatic_compaction_end reason retry outcome); throw error

  pub give_up_cancelled : {A : Type 0} → Exec W A
  unfolding give_up
  give_up_cancelled = do
    set_policy_state mark_cancelled
    give_up AutomaticCompactionOutcome.cancelled CoreError.cancelled

  give_up_failed : {A : Type 0} → Text → Exec W A
  unfolding give_up
  give_up_failed message =
      give_up (AutomaticCompactionOutcome.failed message) (automatic_compaction reason message)

  -- An error of a hook or of the compactor.
  compaction_failed : {A : Type 0} → Text → Exec W A
  unfolding give_up_cancelled give_up_failed
  compaction_failed message = do
    stopped ← is_cancelled host
    (if stopped then give_up_cancelled else give_up_failed (truncate_middle message 1024))

  provider_contexts : CompactionSplit → AgentState → Exec W (ProviderContext Json)
  provider_contexts split s = do
    source ←
        build_provider_context host (envelope (split.prefix_messages ++ split.split_turn_prefix) s)
    active ← build_provider_context host (envelope s.messages s)
    pure (record source { active_context = some active.context })

  or_failed : {A : Type 0} → Result A → Exec W A
  unfolding compaction_failed
  or_failed (ok a) = pure a
  or_failed (err e) = compaction_failed (host.display e)

  or_refused : {A : Type 0} → HookResult A → Exec W A
  unfolding compaction_failed
  or_refused (accepted a) = pure a
  or_refused (refused message) = compaction_failed message

  -- `commit_replacement` for the run itself.
  unfoldable pub commit : List AgentMessage → Exec W (Unit {0})
  commit messages t =
      let replaced = record t { state = replace_messages messages t.state } in
      if host.is_cancelled t.world
      then (t, err CoreError.cancelled)
      else if runs_as t.run.id t.state.phase
      then (replaced, ok tt)
      else (t, err CoreError.cancelled)

  is_cancellation : CoreError → Bool
  is_cancellation CoreError.cancelled = true
  is_cancellation _ = false

  pub or_cancelled : Result (Unit {0}) → Exec W (Unit {0})
  unfolding give_up_cancelled is_cancellation
  or_cancelled (ok u) = pure u
  or_cancelled (err e) = if is_cancellation e then give_up_cancelled else throw e

  -- A proposal must be a valid transcript and end with the retained messages.
  check_suffix : List AgentMessage → List AgentMessage → Exec W (Unit {0})
  unfolding give_up
  check_suffix retained messages =
      let message =
        codes "automatic compactor did not preserve the requested intact recent suffix" in
      if not (is_empty retained) && not (ends_with message_eq messages retained)
      then give_up (AutomaticCompactionOutcome.failed message) (automatic_compaction reason message)
      else pure tt

  pub check_valid :
      List AgentMessage → List AgentMessage → Option InvalidReplacement → Exec W (Unit {0})
  unfolding give_up_failed check_suffix
  check_valid retained messages none = check_suffix retained messages
  check_valid retained messages (some e) =
      give_up_failed (truncate_middle (host.display (compaction e)) 1024)

  compaction_request : ℕ → CompactionSplit → AutomaticCompactionRequest
  compaction_request before split = record {
    reason = reason;
    estimated_tokens_before = some before;
    context_budget_tokens = tokens host.automatic_compaction.budget;
    reserved_tokens = host.automatic_compaction.reserved_tokens;
    recent_tokens = host.automatic_compaction.recent_tokens;
    split = split;
    retry_provider_request = retry;
  }

  -- `snapshot_context`, with the context of the provider.
  compaction_context : ProviderContext Json → AgentState → CompactionContext Json
  compaction_context context s = record {
    version = 1;
    system_prompt = s.system_prompt;
    model = s.model;
    messages = s.messages;
    host_messages = s.host_messages;
    provider_context = some context;
  }

  unfoldable pub Compactor : Type 0
  Compactor =
      CompactionContext Json → AutomaticCompactionRequest → W → HookResult (List AgentMessage) × W

  -- The proposal of the compactor, unless it fails or the run is cancelled meanwhile.
  pub propose : ℕ → CompactionSplit → AgentState → Compactor → Exec W (List AgentMessage)
  unfolding Compactor compaction_request compaction_context provider_contexts or_failed or_refused
      give_up_cancelled
  propose before split s compactor = do
    contexts ← attempt (provider_contexts split s)
    context ← or_failed contexts
    proposal ←
        call_hook host (compactor (compaction_context context s) (compaction_request before split))
    messages ← or_refused proposal
    stopped ← is_cancelled host
    (if stopped then give_up_cancelled else pure messages)

  -- What follows the commit.
  pub finish_compaction : Exec W (Bool × Estimator)
  finish_compaction = do
    after ← gets (λ t. estimate none t.state.messages)
    let still_above = leb (threshold_tokens host.automatic_compaction) after
    count ← gets (λ t. length t.state.messages)
    set_policy_state (λ p. if still_above then block_at count p else p)
    emit host (
        automatic_compaction_end reason retry (
          if still_above
          then AutomaticCompactionOutcome.still_above_threshold
          else AutomaticCompactionOutcome.succeeded (some after)))
    pure (true, none)

  commit_checked : List AgentMessage → Exec W (Bool × Estimator)
  unfolding or_cancelled finish_compaction
  commit_checked messages = do
    committed ← attempt (commit messages)
    or_cancelled committed
    finish_compaction

  -- The compaction of a snapshot of the agent's state.
  compact_from : ℕ → Compactor → AgentState → Exec W (Bool × Estimator)
  unfolding propose check_valid commit_checked
  compact_from before compactor s = do
    let split = automatic_compaction_split s.messages host.automatic_compaction.recent_tokens
    messages ← propose before split s compactor
    check_valid split.retained_messages messages (validate_messages messages)
    commit_checked messages

  compact_with : ℕ → Option Compactor → Exec W (Bool × Estimator)
  unfolding compact_from give_up
  compact_with before none =
      give_up AutomaticCompactionOutcome.unavailable (automatic_compaction_unavailable reason)
  compact_with before (some compactor) = do s ← gets (λ t. t.state); compact_from before compactor s

  -- The compaction behind the check of the limit.
  compact_counted : ℕ → ℕ → Exec W (Bool × Estimator)
  unfolding compact_with Compactor
  compact_counted before source_count = do
    set_policy_state count_compaction
    count ← gets (λ t. t.policy.automatic_compactions)
    emit host (automatic_compaction_start reason source_count (some before) retry count)
    emit host (provider_request_skipped ProviderRequestSkipReason.automatic_compaction)
    compact_with before host.compactor

  compact_limited : ℕ → ℕ → Exec W (Bool × Estimator)
  unfolding compact_counted give_up
  compact_limited before source_count = do
    count ← gets (λ t. t.policy.automatic_compactions)
    (if leb host.automatic_compaction.max_compactions_per_run count
        then give_up AutomaticCompactionOutcome.limit_reached
            (automatic_compaction reason (codes "automatic compaction limit reached"))
        else compact_counted before source_count)

  -- The new estimator stands beside the result.
  unfoldable pub maybe_automatic_compaction : Estimator → Exec W (Bool × Estimator)
  unfolding compact_limited is_threshold is_blocked
  maybe_automatic_compaction estimator = do
    before ← gets (λ t. estimate estimator t.state.messages)
    count ← gets (λ t. length t.state.messages)
    blocked ← gets (λ t. is_blocked t.policy.compaction_blocked_message_count count)
    (if not host.automatic_compaction.enabled
          || (is_threshold reason
              && (ltb before (threshold_tokens host.automatic_compaction) || blocked))
        then pure (false, estimator)
        else compact_limited before count)
