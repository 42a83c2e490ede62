-- ===== src/Tests/Breaker.antt =====
-- The circuit breaker with a limit of two, behind one failure of the same capability.
use pi_agent_core_rs.Prelude.{◌≡◌, true, false, [], ◌∷◌, none, some, codes, arith, is_some}
use pi_agent_core_rs.Tool.Failure.{retryable, signed, ToolFailureCircuitBreaker}
use pi_agent_core_rs.Agent.Events.{AgentToolResult}
use pi_agent_core_rs.Tool.Breaker.{observe_tool_failure, streak_after}
use pi_agent_core_rs.Tool.Breaker.Streak.{kind_of, must_end, observe_tool_failure-must_end}

abbrev twice : ToolFailureCircuitBreaker
twice = record { max_consecutive_retryable_failures = some 2 }

abbrev refused : AgentToolResult
refused = record {
  tool_call_id = codes "c1";
  content = codes "connection refused";
  details = none;
  usage = none;
  added_tool_names = [];
  terminate = false;
  is_error = true;
  failure = some (signed retryable (codes "http"));
}

observe_tool_failure-must_end_example :
    is_some
      (observe_tool_failure twice false
        (codes "c2")
        refused
        (streak_after twice (refused ∷ []))).terminal
    ≡ must_end (some 2) (kind_of refused) (refused ∷ [])
observe_tool_failure-must_end_example =
    observe_tool_failure-must_end twice (codes "c2") refused (refused ∷ []) (omega arith)
