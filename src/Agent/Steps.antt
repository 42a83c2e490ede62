-- ===== src/Agent/Steps.antt =====
-- The calls that a host and a run loop make on an agent and on the handles of its runs, one after the
-- other.
pub mod Owned
pub mod Consistent
pub mod Reachable
pub mod Exclusive
pub mod Outcomes
pub mod Final
pub mod Stuck
pub mod Race
use pi_agent_core_rs.Prelude.{ℕ, List, [], ◌∷◌, Text}
use pi_agent_core_rs.Queue.{QueueMode}
use pi_agent_core_rs.State.Types.{ModelDescriptor, ThinkingLevel, AgentMessage, StopReason}
use pi_agent_core_rs.Compaction.Policy.{AutomaticCompactionPolicy}
use pi_agent_core_rs.Agent.Events.{AgentEventKind}
use pi_agent_core_rs.Agent.State.{AgentConfiguration, System}
use pi_agent_core_rs.Agent.Run.{
  start_turn, advance_turn, begin_settlement, record_event, on_run, succeed, fail, settle_cancelled,
  settle_aborted, abort, drop_handle,
}
use pi_agent_core_rs.Agent.Start.{start_prompt, start_continue, start_compaction, commit_compaction}
use pi_agent_core_rs.Agent.Control.{
  abort_agent_run, reset, restore_messages, replace_model_provider, replace_thinking_level,
  replace_configuration, replace_automatic_compaction, enqueue_steering, enqueue_follow_up,
  clear_all_queues, clear_steering_queue, clear_follow_up_queue, set_steering_mode,
  set_follow_up_mode,
}

-- The number of a run's method is the index of its cell.
pub data AgentOp : Type 0 where
  prompt_op steer_op follow_up_op : Text → AgentOp
  continue_op compact_op abort_op reset_op clear_queues_op : AgentOp
  clear_steering_op clear_follow_up_op : AgentOp
  steering_mode_op follow_up_mode_op : QueueMode → AgentOp
  restore_op : List AgentMessage → AgentOp
  provider_op : ModelDescriptor → ℕ → AgentOp
  thinking_op : ThinkingLevel → AgentOp
  configuration_op : AgentConfiguration → AgentOp
  policy_op : AutomaticCompactionPolicy → AgentOp
  start_turn_op advance_turn_op : (turn_id h : ℕ) → AgentOp
  begin_settlement_op settle_cancelled_op settle_aborted_op run_abort_op drop_op : (h : ℕ) → AgentOp
  record_event_op : AgentEventKind → (h : ℕ) → AgentOp
  succeed_op : StopReason → (h : ℕ) → AgentOp
  fail_op : Text → (h : ℕ) → AgentOp
  commit_op : List AgentMessage → (h : ℕ) → AgentOp

unfoldable pub step : AgentOp → System → System
step (prompt_op prompt) s = (start_prompt prompt s).0
step (steer_op content) s = (enqueue_steering content s).0
step (follow_up_op content) s = (enqueue_follow_up content s).0
step continue_op s = (start_continue s).0
step compact_op s = (start_compaction s).0
step abort_op s = abort_agent_run s
step reset_op s = (reset s).0
step clear_queues_op s = clear_all_queues s
step clear_steering_op s = clear_steering_queue s
step clear_follow_up_op s = clear_follow_up_queue s
step (steering_mode_op mode) s = set_steering_mode mode s
step (follow_up_mode_op mode) s = set_follow_up_mode mode s
step (restore_op messages) s = (restore_messages messages s).0
step (provider_op model provider) s = (replace_model_provider model provider s).0
step (thinking_op level) s = (replace_thinking_level level s).0
step (configuration_op configuration) s = (replace_configuration configuration s).0
step (policy_op policy) s = (replace_automatic_compaction policy s).0
step (start_turn_op turn_id h) s = (on_run (start_turn turn_id) h s).0
step (advance_turn_op turn_id h) s = (on_run (advance_turn turn_id) h s).0
step (begin_settlement_op h) s = (on_run begin_settlement h s).0
step (record_event_op kind h) s = (on_run (record_event kind) h s).0
step (succeed_op reason h) s = (succeed reason h s).0
step (fail_op message h) s = (fail message h s).0
step (settle_cancelled_op h) s = (settle_cancelled h s).0
step (settle_aborted_op h) s = (settle_aborted h s).0
step (run_abort_op h) s = abort h s
step (drop_op h) s = drop_handle h s
step (commit_op replacement h) s = (commit_compaction replacement h s).0

-- A history of calls.
unfoldable pub perform : List AgentOp → System → System
perform [] s = s
perform (op ∷ ops) s = perform ops (step op s)
