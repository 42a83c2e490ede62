-- ===== src/Scheduler.antt =====
-- scheduler.rs: planned batches of tool calls and the set of their completions. The map of results is
-- sorted by call ID.
pub mod Order
use pi_agent_core_rs.Prelude.{
  ℕ, suc, Bool, true, false, ◌||◌, List, [], ◌∷◌, Option, none, some, Text, text_eq, if◌then◌else◌,
  length, is_some,
}
use pi_agent_core_rs.Prelude.Sets.{lookup, insert}
use pi_agent_core_rs.Agent.Events.{AgentToolResult}

-- tool.rs: `ToolExecutionMode` and `ToolCall`.
pub data ToolExecutionMode : Type 0 where
  sequential parallel : ToolExecutionMode

pub record ToolCall : Type 0 where
  pub id : Text
  pub name : Text
  pub arguments : Text

pub record PlannedToolCall : Type 0 where
  pub source_index : ℕ
  pub call : ToolCall
  pub execution_mode : ToolExecutionMode

-- The variants that the modelled operations return.
pub data SchedulerError : Type 0 where
  unknown_tool_call duplicate_completion : (tool_call_id : Text) → SchedulerError

-- `into_iter().enumerate().map(..)` from an index on.
unfoldable pub prepare_from : ℕ → List (ToolCall × ToolExecutionMode) → List PlannedToolCall
prepare_from i [] = []
prepare_from i ((call, mode) ∷ calls) =
    record { source_index = i; call = call; execution_mode = mode } ∷ prepare_from (suc i) calls

-- `ToolBatch::prepare`, and with it `Scheduler::plan_tool_batch`. A batch is its calls.
unfoldable pub prepare : List (ToolCall × ToolExecutionMode) → List PlannedToolCall
prepare calls = prepare_from 0 calls

abbrev pub CompletionSet : Type 0
CompletionSet = List (Text × AgentToolResult)

-- `CompletionSet::insert`; `none` is `Ok(())`. The map is changed before the result is looked at.
unfoldable pub insert_result :
    AgentToolResult → CompletionSet → CompletionSet × Option SchedulerError
insert_result result set =
    let id = result.tool_call_id in
    (
      insert id result set,
      (if is_some (lookup id set) then some (duplicate_completion id) else none),
    )

unfoldable pub is_planned : Text → List PlannedToolCall → Bool
is_planned id [] = false
is_planned id (planned ∷ batch) = text_eq planned.call.id id || is_planned id batch

unfoldable pub record_completion :
    List PlannedToolCall → AgentToolResult → CompletionSet → CompletionSet × Option SchedulerError
unfolding insert_result is_planned
record_completion batch result set =
    if is_planned result.tool_call_id batch
    then insert_result result set
    else (set, some (unknown_tool_call result.tool_call_id))

keep_found : Option AgentToolResult → List AgentToolResult → List AgentToolResult
keep_found none results = results
keep_found (some result) results = result ∷ results

-- `CompletionSet::in_source_order`.
unfoldable pub in_source_order : List PlannedToolCall → CompletionSet → List AgentToolResult
unfolding keep_found
in_source_order [] set = []
in_source_order (planned ∷ batch) set =
    keep_found (lookup planned.call.id set) (in_source_order batch set)

-- `CompletionSet::len`.
abbrev pub completed : CompletionSet → ℕ
completed set = length set

-- The completions of a batch, in the order in which they come in.
unfoldable pub record_completions :
    List PlannedToolCall → List AgentToolResult → CompletionSet → CompletionSet
record_completions batch [] set = set
record_completions batch (result ∷ results) set =
    record_completions batch results (record_completion batch result set).0
