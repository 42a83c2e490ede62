-- ===== src/Tests/Turn.antt =====
-- The theorems on turns at a batch of two calls and at a streamed response.
use pi_agent_core_rs.Prelude.{
  ℕ, suc, true, false, false, List, [], ◌∷◌, none, some, codes, ◌≡◌, refl, ltb,
}
use pi_agent_core_rs.State.Types.{AgentPhase, AgentToolCall, user, StopReason}
use pi_agent_core_rs.Agent.Events.{AgentToolResult, ToolUpdate}
use pi_agent_core_rs.Agent.State.{default_state, created_run}
use pi_agent_core_rs.Scheduler.{ToolCall, sequential}
use pi_agent_core_rs.Tool.Registry.{AgentTool}
use pi_agent_core_rs.Turn.Host.{
  accepted, allow, AfterToolCall, keep, returned, ready, pending, Host, Turn,
}
use pi_agent_core_rs.Tool.Failure.{default_policy}
use pi_agent_core_rs.Compaction.Policy.{AutomaticCompactionPolicy, context_budget, disabled}
use pi_agent_core_rs.Turn.Host.{new_policy_state}
use pi_agent_core_rs.Turn.Exec.{ok}
use pi_agent_core_rs.Turn.Calls.{ToolBatchOutcome}
use pi_agent_core_rs.Turn.Batch.{execute_tool_calls_sequential}
use pi_agent_core_rs.Turn.Batch.Answered.{Answered}
use pi_agent_core_rs.Turn.Batch.Answers.{execute_tool_calls_sequential-Answered}
use pi_agent_core_rs.Turn.Batch.Returns.{AllAnswered, execute_tool_calls_sequential_returns}
use pi_agent_core_rs.Turn.Response.{
  text_delta, tool_call, end, EventSource, closed, event, AssistantTurn, consume_assistant_stream,
}
use pi_agent_core_rs.Turn.Response.Shapes.{events}
use pi_agent_core_rs.Turn.Response.Ensures.{Leaves}
use pi_agent_core_rs.Compaction.Policy.{threshold}
use pi_agent_core_rs.Turn.Compact.{maybe_automatic_compaction}
use pi_agent_core_rs.Turn.Compact.Commit.{Unchanged, Told}
use pi_agent_core_rs.Turn.Compact.Outcome.{maybe_automatic_compaction-Told}
use pi_agent_core_rs.Turn.Response.Message.{Cut}
use pi_agent_core_rs.Turn.Response.Delivered.{Delivered, consume_assistant_stream-Delivered}
use pi_agent_core_rs.Turn.Response.Returns.{consume_assistant_stream_returns}

abbrev echo : AgentTool (Unit {0})
echo = record { name = codes "echo"; description = []; schema = tt; execution_mode = sequential }

abbrev echo_result : ToolCall → AgentToolResult
echo_result call = record {
  tool_call_id = call.id;
  content = call.arguments;
  details = none;
  usage = none;
  added_tool_names = [];
  terminate = false;
  is_error = false;
  failure = none;
}

abbrev keep_all : AfterToolCall
keep_all = record {
  content = keep;
  details = keep;
  is_error = keep;
  failure = keep;
  usage = keep;
  added_tool_names = keep;
  terminate = none;
}

abbrev progress : ToolUpdate
progress = record { content = codes "half"; details = none }

abbrev sample_policy : AutomaticCompactionPolicy
sample_policy = record {
  enabled = true;
  budget = context_budget 10;
  reserved_tokens = 9;
  recent_tokens = 0;
  overflow_recovery = disabled;
  max_compactions_per_run = 1;
  max_overflow_retries_per_run = 1;
}

-- The world counts the polls; the run is cancelled after the first.
abbrev sample_host : Host ℕ (Unit {0})
sample_host = record {
  tools = record { tools = (codes "echo", echo) ∷ []; order = codes "echo" ∷ [] };
  breaker = record { max_consecutive_retryable_failures = some 3 };
  is_cancelled = λ world. ltb 0 world;
  is_aborted = λ world. ltb 0 world;
  observe = λ _ world. (accepted tt, world);
  validate_tool_arguments = λ _ _ _. none;
  before_tool_call = λ _ _ world. (accepted allow, world);
  after_tool_call = λ _ _ _ world. (accepted keep_all, world);
  execute = λ _ call world. record {
    future =
        pending (λ w. w) (progress ∷ []) (λ w. w) [] (ready suc [] (returned (echo_result call)));
    updates = [];
    world = world;
  };
  system_prompt = codes "help";
  projection = default_policy;
  transform_context = λ context world. (accepted context, world);
  convert_to_llm = λ _ world. (accepted (codes "context"), world);
  automatic_compaction = sample_policy;
  compactor = some (λ _ _ world. (accepted (user 9 (codes "summary") ∷ []), world));
  display = λ _. codes "error";
}

abbrev sample_calls : List AgentToolCall
sample_calls =
    record { id = codes "a"; name = codes "echo"; arguments = codes "x" }
    ∷ record { id = codes "b"; name = codes "missing"; arguments = codes "y" }
    ∷ []

abbrev sample_turn : Turn ℕ
sample_turn = record {
  state = record default_state {
    phase = AgentPhase.running 1;
    messages = user 1 (codes "go") ∷ [];
    next_message_id = 2;
  };
  run = created_run 1;
  streak = none;
  policy = new_policy_state;
  world = 0;
}

execute_tool_calls_sequential-Answered_example :
    Answered sample_calls sample_turn
      (execute_tool_calls_sequential sample_host sample_calls sample_turn)
execute_tool_calls_sequential-Answered_example =
    execute_tool_calls_sequential-Answered sample_host sample_calls sample_turn

execute_tool_calls_sequential_returns_example :
    (o : ToolBatchOutcome) × ((execute_tool_calls_sequential sample_host sample_calls sample_turn).1
      ≡ ok o)
    × AllAnswered sample_calls sample_turn
        (execute_tool_calls_sequential sample_host sample_calls sample_turn).0
execute_tool_calls_sequential_returns_example =
    execute_tool_calls_sequential_returns sample_host sample_calls sample_turn (λ _ _. refl) refl

abbrev sample_source : EventSource ℕ
sample_source =
    event (λ w. w) (text_delta (codes "he"))
      (event (λ w. w) (text_delta (codes "llo"))
        (event (λ w. w)
          (tool_call (record { id = codes "a"; name = codes "echo"; arguments = codes "x" }))
          (event (λ w. w) (end StopReason.tool_use) (closed (λ w. w)))))

consume_assistant_stream-Delivered_example :
    let r = consume_assistant_stream sample_host sample_source 1 none sample_turn in
    Leaves
      (Delivered
        (events sample_source)
        sample_turn.state.messages
        sample_turn.state.next_message_id)
      (Cut sample_turn.state.messages)
      r.1
      r.0.state.messages
      r.0.state.next_message_id
consume_assistant_stream-Delivered_example =
    consume_assistant_stream-Delivered sample_host sample_source 1 none sample_turn

consume_assistant_stream_returns_example :
    (turn : AssistantTurn) × ((consume_assistant_stream sample_host sample_source 1 none
        sample_turn).1
      ≡ ok turn)
consume_assistant_stream_returns_example =
    consume_assistant_stream_returns sample_host sample_source 1 none sample_turn (λ _ _. refl) refl
      (refl, (refl, (refl, (refl, refl))))

-- A compactor that keeps the recent suffix behind a summary.
abbrev compacting_host : Host ℕ (Unit {0})
compacting_host = record sample_host {
  automatic_compaction = record sample_policy { recent_tokens = 1 };
  compactor = some (λ _ request world.
      (accepted (user 9 (codes "summary") ∷ request.split.retained_messages), world));
}

abbrev long_turn : Turn ℕ
long_turn = record sample_turn {
  state = record default_state {
    phase = AgentPhase.running 1;
    messages = user 1 (codes "go") ∷ user 2 (codes "go on") ∷ [];
    next_message_id = 3;
  };
}

maybe_automatic_compaction-Told_example :
    let r = maybe_automatic_compaction compacting_host threshold false none long_turn in
    Leaves
      (Told long_turn.state.messages long_turn.state.next_message_id
        compacting_host.automatic_compaction.recent_tokens)
      (Unchanged long_turn.state.messages long_turn.state.next_message_id)
      r.1
      r.0.state.messages
      r.0.state.next_message_id
maybe_automatic_compaction-Told_example =
    maybe_automatic_compaction-Told compacting_host threshold false none long_turn (λ _ _. refl)
