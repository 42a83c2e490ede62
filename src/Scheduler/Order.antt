-- ===== src/Scheduler/Order.antt =====
-- scheduler.rs: results come out in source order, whatever the order of the completions.
use pi_agent_core_rs.Prelude.{
  ◌≡◌, refl, ap, ◌∙◌, inl, inr, true, List, [], ◌∷◌, Option, none, some, Text, arith, text_eq,
  text_eq_iff, text_eq_refl, if◌then◌else◌, Bool-cases, Option-cases,
}
use pi_agent_core_rs.Prelude.Sets.{lookup, lookup-insert}
use pi_agent_core_rs.Agent.Events.{AgentToolResult}
use pi_agent_core_rs.Scheduler.{
  PlannedToolCall, duplicate_completion, CompletionSet, is_planned, insert_result,
  record_completion, in_source_order, record_completions,
}

-- The result that came in last for a call, or else the one before.
abbrev pub latest : Text → List AgentToolResult → Option AgentToolResult → Option AgentToolResult
latest id [] before = before
latest id (result ∷ results) before =
    latest id results (if text_eq result.tool_call_id id then some result else before)

abbrev prepend : Option AgentToolResult → List AgentToolResult → List AgentToolResult
prepend none results = results
prepend (some result) results = result ∷ results

-- For every call of a batch, in source order, the result that came in last.
abbrev pub latest_results : List PlannedToolCall → List AgentToolResult → List AgentToolResult
latest_results [] results = []
latest_results (planned ∷ batch) results =
    prepend (latest planned.call.id results none) (latest_results batch results)

record_completion-lookup :
    (batch : List PlannedToolCall) (result : AgentToolResult) (set : CompletionSet) (id : Text)
    → is_planned id batch ≡ true
    → lookup id (record_completion batch result set).0
      ≡ (if text_eq result.tool_call_id id then some result else lookup id set)
unfolding record_completion insert_result
record_completion-lookup batch result set id p =
    elim (Bool-cases (is_planned result.tool_call_id batch)) [
      | inl q ↦ rw (q, record_completion) (lookup-insert result.tool_call_id id result set)
      | inr q ↦ elim (Bool-cases (text_eq result.tool_call_id id)) [
        | inl same ↦ let s = (text_eq_iff result.tool_call_id id).0 same in cc
        | inr other ↦ rw (q, other, record_completion) refl
      ]
    ]

record_completions-lookup :
    (batch : List PlannedToolCall) (results : List AgentToolResult) (set : CompletionSet)
    (id : Text)
    → is_planned id batch ≡ true
    → lookup id (record_completions batch results set) ≡ latest id results (lookup id set)
unfolding record_completions
record_completions-lookup batch [] set id p = refl
record_completions-lookup batch (result ∷ results) set id p =
    record_completions-lookup batch results (record_completion batch result set).0 id p
    ∙ ap (latest id results) (record_completion-lookup batch result set id p)

in_source_order-from :
    (batch calls : List PlannedToolCall) (results : List AgentToolResult)
    → ((id : Text) → is_planned id calls ≡ true → is_planned id batch ≡ true)
    → in_source_order calls (record_completions batch results []) ≡ latest_results calls results
unfolding in_source_order is_planned lookup
in_source_order-from batch [] results within = refl
in_source_order-from batch (planned ∷ calls) results within =
    let here =
      record_completions-lookup batch results [] planned.call.id
        (within planned.call.id (ground (arith, text_eq_refl planned.call.id))) in
    let rest = in_source_order-from batch calls results (λ id p. within id (ground (arith, p))) in
    elim (Option-cases (latest planned.call.id results none)) [
      | inl e ↦ rw (here, e) rest
      | inr (result, e) ↦ rw (here, e) (ap (◌∷◌ result) rest)
    ]

-- Whatever results come in for a batch, in whatever order, the results that are handed over are, call
-- by call in source order, those that came in last for each call; results of other calls are left out.
pub in_source_order-latest :
    (batch : List PlannedToolCall) (results : List AgentToolResult)
    → in_source_order batch (record_completions batch results []) ≡ latest_results batch results
in_source_order-latest batch results = in_source_order-from batch batch results (λ id p. p)

-- A second result of a planned call is refused as a duplicate, but has by then taken the place of the
-- first.
pub record_completion_replaces :
    (batch : List PlannedToolCall) (result old : AgentToolResult) (set : CompletionSet)
    → is_planned result.tool_call_id batch ≡ true
    → lookup result.tool_call_id set ≡ some old
    → let (set', e) = record_completion batch result set in
      (e ≡ some (duplicate_completion result.tool_call_id))
      × (lookup result.tool_call_id set' ≡ some result)
unfolding record_completion insert_result
record_completion_replaces batch result old set p e = (
  rw (p, e, record_completion) refl,
  record_completion-lookup batch result set result.tool_call_id p
      ∙ rw (text_eq_refl result.tool_call_id) refl,
)
