-- ===== src/Tool/Breaker/Streak.antt =====
-- run/tool_execution.rs: the breaker counts the failures of one capability that come in a row.
use pi_agent_core_rs.Prelude.{
  ℕ, suc, ◌≤◌, ◌≡◌, refl, ◌∙◌, inl, inr, Bool, true, false, List, [], ◌∷◌, Option, none, some, Text,
  arith, min, u32_max, text_eq, text_eq_iff, sat_add32, leb, if◌then◌else◌, is_some, Bool-cases,
}
use pi_agent_core_rs.Tool.Failure.{
  ToolFailureDisposition, retryable, fatal, ToolFailure, ToolFailureCircuitBreaker,
}
use pi_agent_core_rs.Agent.Events.{AgentToolResult}
use pi_agent_core_rs.Tool.Breaker.{
  Streak, next_count, trips, count_failure, observe_tool_failure, streak_after,
}

-- What a result says to the breaker.
pub data Kind : Type 0 where
  retry ends : Text → Kind
  unrelated : Kind

abbrev kind_of_failure : ToolFailureDisposition → Option Text → Kind
kind_of_failure retryable (some signature) = retry signature
kind_of_failure fatal (some signature) = ends signature
kind_of_failure _ _ = unrelated

abbrev kind_of_error : Option ToolFailure → Kind
kind_of_error none = unrelated
kind_of_error (some f) = kind_of_failure f.disposition f.signature

abbrev pub kind_of : AgentToolResult → Kind
kind_of r = if r.is_error then kind_of_error r.failure else unrelated

abbrev extend_row : Text → Kind → ℕ → ℕ
extend_row k (retry signature) row = if text_eq signature k then suc row else 0
extend_row k (ends signature) row = if text_eq signature k then 1 else 0
extend_row k unrelated row = 0

-- How many results in a row, from the newest on, are retryable failures with the signature `k`, back to
-- a fatal one at most.
abbrev pub row : Text → List AgentToolResult → ℕ
row k [] = 0
row k (r ∷ history) = extend_row k (kind_of r) (row k history)

abbrev count_of : Text → Streak → ℕ
count_of k none = 0
count_of k (some (signature, count)) = if text_eq signature k then count else 0

-- The streak that a kind of result leaves.
abbrev streak_kind : Kind → Streak → Streak
streak_kind (retry signature) streak = some (signature, next_count signature streak)
streak_kind (ends signature) streak = some (signature, 1)
streak_kind unrelated streak = none

observe-streak :
    (breaker : ToolFailureCircuitBreaker) (call_id : Text) (r : AgentToolResult) (streak : Streak)
    → (observe_tool_failure breaker false call_id r streak).streak ≡ streak_kind (kind_of r) streak
unfolding observe_tool_failure count_failure next_count
observe-streak breaker call_id r streak = ground arith

next_count-lem :
    (k : Text) (streak : Streak) (n : ℕ)
    → count_of k streak ≡ min n u32_max
    → next_count k streak ≡ min (suc n) u32_max
unfolding next_count sat_add32
next_count-lem k none n e = ground arith
next_count-lem k (some (signature, count)) n e = ground arith

streak_kind-count :
    (k : Text) (kind : Kind) (streak : Streak) (history : List AgentToolResult)
    → ((j : Text) → count_of j streak ≡ min (row j history) u32_max)
    → count_of k (streak_kind kind streak) ≡ min (extend_row k kind (row k history)) u32_max
streak_kind-count k (retry signature) streak history counted =
    elim (Bool-cases (text_eq signature k)) [
      | inl same ↦
          let w = (text_eq_iff signature k).0 same in
          rw (same, w) (next_count-lem k streak (row k history) (counted k))
      | inr other ↦ rw other refl
    ]
streak_kind-count k (ends signature) streak history counted =
    elim (Bool-cases (text_eq signature k)) [ inl same ↦ rw same refl | inr other ↦ rw other refl ]
streak_kind-count k unrelated streak history counted = refl

streak_after-row :
    (breaker : ToolFailureCircuitBreaker) (history : List AgentToolResult) (k : Text)
    → count_of k (streak_after breaker history) ≡ min (row k history) u32_max
unfolding streak_after
streak_after-row breaker [] k = refl
streak_after-row breaker (r ∷ history) k =
    rw (observe-streak breaker r.tool_call_id r (streak_after breaker history)) (
      streak_kind-count k (kind_of r) (streak_after breaker history) history
        (streak_after-row breaker history))

abbrev pub FitsU32 : Option ℕ → Type 0
FitsU32 none = Unit {0}
FitsU32 (some limit) = limit ≤ u32_max

-- Whether a result of some kind behind a history has to end the run.
abbrev pub must_end : Option ℕ → Kind → List AgentToolResult → Bool
must_end none (retry k) history = false
must_end (some limit) (retry k) history = leb limit (suc (row k history))
must_end _ (ends k) history = true
must_end _ unrelated history = false

kind_ends : Option ℕ → Kind → Streak → Bool
kind_ends limit (retry k) streak = trips limit (next_count k streak)
kind_ends limit (ends k) streak = true
kind_ends limit unrelated streak = false

observe-terminal :
    (breaker : ToolFailureCircuitBreaker) (call_id : Text) (r : AgentToolResult) (streak : Streak)
    → is_some (observe_tool_failure breaker false call_id r streak).terminal
      ≡ kind_ends breaker.max_consecutive_retryable_failures (kind_of r) streak
unfolding observe_tool_failure count_failure kind_ends
observe-terminal breaker call_id r streak = ground arith

kind_ends-lem :
    (limit : Option ℕ) (kind : Kind) (streak : Streak) (history : List AgentToolResult)
    → FitsU32 limit
    → ((j : Text) → count_of j streak ≡ min (row j history) u32_max)
    → kind_ends limit kind streak ≡ must_end limit kind history
unfolding kind_ends
kind_ends-lem none (retry k) streak history fits counted = refl
kind_ends-lem (some limit) (retry k) streak history fits counted =
    let next = next_count-lem k streak (row k history) (counted k) in ground (arith, next)
kind_ends-lem limit (ends k) streak history fits counted = refl
kind_ends-lem limit unrelated streak history fits counted = refl

-- In a run that is not cancelled, a result ends the run exactly if it is a fatal failure with a
-- signature, or if with it the row of consecutive retryable failures of the same signature, counted
-- over all results of the run so far, reaches the limit of the circuit breaker, a 32-bit word.
pub observe_tool_failure-must_end :
    (breaker : ToolFailureCircuitBreaker) (call_id : Text) (r : AgentToolResult)
    (history : List AgentToolResult)
    → FitsU32 breaker.max_consecutive_retryable_failures
    → is_some (observe_tool_failure breaker false call_id r (streak_after breaker history)).terminal
      ≡ must_end breaker.max_consecutive_retryable_failures (kind_of r) history
observe_tool_failure-must_end breaker call_id r history fits =
    observe-terminal breaker call_id r (streak_after breaker history)
    ∙ kind_ends-lem breaker.max_consecutive_retryable_failures (kind_of r)
        (streak_after breaker history) history fits (streak_after-row breaker history)
