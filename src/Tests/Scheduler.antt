-- ===== src/Tests/Scheduler.antt =====
-- scheduler.rs on a batch of two calls whose results come in the other way round.
use pi_agent_core_rs.Prelude.{◌≡◌, refl, false, List, [], ◌∷◌, none, some, Text, codes, text_eq}
use pi_agent_core_rs.Prelude.Sets.{lookup, insert}
use pi_agent_core_rs.Agent.Events.{AgentToolResult}
use pi_agent_core_rs.Scheduler.{
  parallel, PlannedToolCall, prepare, CompletionSet, record_completion, record_completions,
  in_source_order, duplicate_completion, is_planned, prepare_from,
}
use pi_agent_core_rs.Scheduler.Order.{
  latest_results, in_source_order-latest, record_completion_replaces,
}

abbrev answer : Text → Text → AgentToolResult
answer id content = record {
  tool_call_id = id;
  content = content;
  details = none;
  usage = none;
  added_tool_names = [];
  terminate = false;
  is_error = false;
  failure = none;
}

abbrev batch : List PlannedToolCall
batch = prepare (
    (record { id = codes "c1"; name = codes "read"; arguments = [] }, parallel)
    ∷ (record { id = codes "c2"; name = codes "grep"; arguments = [] }, parallel)
    ∷ [])

abbrev arrived : List AgentToolResult
arrived = answer (codes "c2") (codes "two") ∷ answer (codes "c1") (codes "one") ∷ []

in_source_order-latest_example :
    in_source_order batch (record_completions batch arrived []) ≡ latest_results batch arrived
in_source_order-latest_example = in_source_order-latest batch arrived

abbrev late : AgentToolResult
late = answer (codes "c1") (codes "late")

abbrev settled : CompletionSet
settled = record_completions batch arrived []

record_completion_replaces_example :
    ((record_completion batch late settled).1 ≡ some (duplicate_completion (codes "c1")))
    × (lookup (codes "c1") (record_completion batch late settled).0 ≡ some late)
unfolding is_planned prepare prepare_from text_eq lookup record_completions record_completion insert
record_completion_replaces_example =
    record_completion_replaces batch late (answer (codes "c1") (codes "one")) settled refl refl
