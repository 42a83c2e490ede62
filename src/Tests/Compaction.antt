-- ===== src/Tests/Compaction.antt =====
-- compaction.rs and the split of run/mod.rs on a transcript of one turn with a tool call.
use pi_agent_core_rs.Prelude.Sets.{lookup, insert, set_contains, set_insert}
use pi_agent_core_rs.Prelude.{
  ℕ, ◌≤◌, ◌≡◌, refl, true, false, List, [], ◌∷◌, ◌++◌, none, Text, codes, arith, All, text_eq,
}
use pi_agent_core_rs.State.Types.{AgentMessage, user, assistant, tool_result, ToolResultMessage}
use pi_agent_core_rs.Compaction.Validate.{validate_messages}
use pi_agent_core_rs.Compaction.Validate.Collect.{count_ids, count_calls, count_results}
use pi_agent_core_rs.Compaction.Validate.Sound.{IdInRange, validate_messages_counts}
use pi_agent_core_rs.Compaction.Validate.Order.{was_called, validate_messages_answers}
use pi_agent_core_rs.Compaction.Split.{automatic_compaction_split}
use pi_agent_core_rs.Compaction.Split.Partition.{
  CutsAtTurns, automatic_compaction_split-CutsAtTurns,
}
use pi_agent_core_rs.Compaction.Split.Tail.{HoldsRecent, automatic_compaction_split-HoldsRecent}

abbrev calling : List AgentMessage
calling =
    user 1 (codes "go")
    ∷ assistant (record {
      id = 2;
      content = [];
      tool_calls = record { id = codes "c1"; name = codes "read"; arguments = codes "{}" } ∷ [];
      stop_reason = none;
      error_message = none;
    })
    ∷ []

abbrev answer : ToolResultMessage
answer = record {
  id = 3;
  tool_call_id = codes "c1";
  tool_name = codes "read";
  content = codes "text";
  details = none;
  usage = none;
  added_tool_names = [];
  terminate = false;
  is_error = false;
  failure = none;
}

abbrev closing : List AgentMessage
closing = user 4 (codes "thanks") ∷ []

abbrev transcript : List AgentMessage
transcript = calling ++ tool_result answer ∷ closing

validate_messages_counts_example :
    All IdInRange transcript
    × ((n : ℕ) → count_ids n transcript ≤ 1)
    × ((k : Text)
        → (count_calls k transcript ≤ 1) × (count_results k transcript ≡ count_calls k transcript))
unfolding validate_messages lookup insert text_eq set_contains set_insert
validate_messages_counts_example = validate_messages_counts transcript (omega arith) refl

validate_messages_answers_example : was_called (codes "c1") (codes "read") calling ≡ true
unfolding validate_messages lookup insert text_eq set_contains set_insert
validate_messages_answers_example = validate_messages_answers calling closing answer refl

automatic_compaction_split-CutsAtTurns_example :
    CutsAtTurns transcript (automatic_compaction_split transcript 12)
automatic_compaction_split-CutsAtTurns_example =
    automatic_compaction_split-CutsAtTurns transcript 12

automatic_compaction_split-HoldsRecent_example :
    HoldsRecent transcript 12 (automatic_compaction_split transcript 12)
automatic_compaction_split-HoldsRecent_example =
    automatic_compaction_split-HoldsRecent transcript 12
