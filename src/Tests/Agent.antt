-- ===== src/Tests/Agent.antt =====
-- An agent through two runs, one aborted before it was driven and one that succeeds.
use pi_agent_core_rs.Agent.Run.{on_run, start_turn}
use pi_agent_core_rs.Prelude.{true, false, arith, refl, List, [], ◌∷◌, none, some, codes, sat_add}
use pi_agent_core_rs.Agent.State.{Run, created_run, set_run}
use pi_agent_core_rs.Agent.Start.{start_run, commit_compaction}
use pi_agent_core_rs.Agent.Control.{restore_messages}
use pi_agent_core_rs.State.Types.{RunPhase, AgentMessage, user}
use pi_agent_core_rs.Agent.MessageIds.{HasFreshIds, start_run-HasFreshIds, replacement-HasFreshIds}
use pi_agent_core_rs.Agent.Steps.Consistent.{IsConsistent}
use pi_agent_core_rs.Agent.Steps.Reachable.{perform-IsConsistent, built-IsConsistent}
use pi_agent_core_rs.Agent.Steps.Stuck.{IsStuck}
use pi_agent_core_rs.Agent.Steps.Race.{abort_around, abort_around-IsBusy}
use pi_agent_core_rs.State.Types.{StopReason}
use pi_agent_core_rs.Agent.State.{AgentConfiguration, System, built}
use pi_agent_core_rs.Agent.Steps.{
  AgentOp, prompt_op, run_abort_op, start_turn_op, succeed_op, perform, step,
}
use pi_agent_core_rs.Agent.Start.{start_prompt, start_run}
use pi_agent_core_rs.Agent.Busy.{IsBusy, owned-IsBusy}
use pi_agent_core_rs.Agent.Steps.Exclusive.{IsExclusive, perform-IsExclusive}
use pi_agent_core_rs.Agent.Steps.Outcomes.{KeepsOutcomes}
use pi_agent_core_rs.Agent.Steps.Final.{perform-KeepsOutcomes}

abbrev setup : AgentConfiguration
setup = record { system_prompt = codes "help"; tools = 0; hooks = 0 }

abbrev fresh : System
fresh = built setup (some 0) none

abbrev busy : System
busy = (start_prompt (codes "go") fresh).0

abbrev calls : List AgentOp
calls =
    prompt_op (codes "one")
    ∷ run_abort_op 0
    ∷ prompt_op (codes "two")
    ∷ start_turn_op 1 1
    ∷ succeed_op StopReason.stop 1
    ∷ []

perform-IsExclusive_example : IsExclusive (perform calls fresh)
perform-IsExclusive_example = perform-IsExclusive calls setup (some 0) none

perform-KeepsOutcomes_example :
    KeepsOutcomes (perform calls fresh).runs (perform calls (perform calls fresh)).runs
perform-KeepsOutcomes_example = perform-KeepsOutcomes calls (perform calls fresh)

owned-IsBusy_example : IsBusy 1 busy
unfolding start_prompt start_run sat_add
owned-IsBusy_example = owned-IsBusy 1 busy refl

abbrev driven : System
driven = perform (prompt_op (codes "go") ∷ start_turn_op 1 0 ∷ []) fresh

-- The run of `driven`.
abbrev first_run : Run
first_run = record {
  state = record (created_run 1) { phase = RunPhase.running; turn_id = some 1 };
  is_cancelled = false;
}

driven-IsConsistent : IsConsistent driven
driven-IsConsistent = perform-IsConsistent _ fresh (built-IsConsistent setup (some 0) none)

abort_around-IsBusy_example :
    IsStuck 1 (perform calls (abort_around StopReason.stop 0 driven))
    × IsBusy 1 (perform calls (abort_around StopReason.stop 0 driven))
unfolding perform step on_run start_prompt start_run set_run start_turn sat_add
abort_around-IsBusy_example =
    abort_around-IsBusy StopReason.stop 0 driven first_run calls driven-IsConsistent refl refl

fresh-HasFreshIds : HasFreshIds fresh.agent.state
fresh-HasFreshIds = record { positive = omega arith; below = tt; once = λ n. omega arith }

start_run-HasFreshIds_example :
    HasFreshIds (start_run (codes "a" ∷ codes "b" ∷ []) true fresh).0.agent.state
start_run-HasFreshIds_example =
    start_run-HasFreshIds (codes "a" ∷ codes "b" ∷ []) true fresh (omega arith) fresh-HasFreshIds

abbrev saved : List AgentMessage
saved = user 7 (codes "hello") ∷ user 3 (codes "again") ∷ []

replacement-HasFreshIds_example :
    HasFreshIds (restore_messages saved fresh).0.agent.state
    × HasFreshIds (commit_compaction saved 0 fresh).0.agent.state
replacement-HasFreshIds_example =
    replacement-HasFreshIds saved 0 fresh (omega arith) fresh-HasFreshIds
