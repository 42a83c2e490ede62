-- ===== src/Agent/Busy.antt =====
-- agent/mod.rs: while a run owns the agent, every method that would start another run or change what
-- the run uses is refused.
use pi_agent_core_rs.Prelude.{
  arith, is_some, true, ℕ, ◌≡◌, refl, Bool, false, List, [], ◌∷◌, Option, some, Text,
}
use pi_agent_core_rs.State.Types.{ModelDescriptor, ThinkingLevel, AgentMessage}
use pi_agent_core_rs.Compaction.Policy.{AutomaticCompactionPolicy}
use pi_agent_core_rs.Agent.State.{CoreError, active_run, AgentConfiguration, System}
use pi_agent_core_rs.Agent.Start.{
  owner, Started, refused, start_run, start_prompt, start_continue, start_compaction,
}
use pi_agent_core_rs.Agent.Control.{
  while_idle, reset, restore_messages, replace_model_provider, replace_thinking_level,
  replace_configuration, replace_automatic_compaction,
}

-- A method that is refused changes nothing.
abbrev pub Refuses : ℕ → (System → System × Option CoreError) → System → Type 0
Refuses id method s = method s ≡ (s, some (active_run id))

-- A method that would start a run is refused, and only takes a number for it.
abbrev pub RefusesRun : ℕ → (System → System × Started) → System → Type 0
RefusesRun id method s =
    ((method s).1 ≡ refused (active_run id))
    × ((method s).0.runs ≡ s.runs)
    × ((method s).0.agent.state ≡ s.agent.state)
    × ((method s).0.agent.active ≡ s.agent.active)
    × ((method s).0.agent.queues ≡ s.agent.queues)

pub record IsBusy (id : ℕ) (s : System) : Type 0 where
  pub no_prompt : (prompt : Text) → RefusesRun id (start_prompt prompt) s
  pub no_continue : start_continue s ≡ (s, refused (active_run id))
  pub no_compaction : RefusesRun id start_compaction s
  pub no_reset : Refuses id reset s
  pub no_restore : (messages : List AgentMessage) → Refuses id (restore_messages messages) s
  pub no_provider :
      (model : ModelDescriptor) (provider : ℕ)
      → Refuses id (replace_model_provider model provider) s
  pub no_thinking : (level : ThinkingLevel) → Refuses id (replace_thinking_level level) s
  pub no_configuration :
      (configuration : AgentConfiguration) → Refuses id (replace_configuration configuration) s
  pub no_policy :
      (policy : AutomaticCompactionPolicy)
      → ((replace_automatic_compaction policy s).0 ≡ s)
        × (is_some (replace_automatic_compaction policy s).1 ≡ true)

while_idle-Refuses :
    (id : ℕ) (change : System → System × Option CoreError) (s : System)
    → owner s.agent.state.phase ≡ some id
    → Refuses id (while_idle change) s
unfolding while_idle
while_idle-Refuses id change s e = rw (e, while_idle) refl

start_run-RefusesRun :
    (id : ℕ) (contents : List Text) (skip : Bool) (s : System)
    → owner s.agent.state.phase ≡ some id
    → RefusesRun id (start_run contents skip) s
unfolding start_run
start_run-RefusesRun id contents skip s e = rw (e, start_run) (refl, refl, refl, refl, refl)

start_compaction-RefusesRun :
    (id : ℕ) (s : System) → owner s.agent.state.phase ≡ some id → RefusesRun id start_compaction s
unfolding start_compaction
start_compaction-RefusesRun id s e = rw (e, start_compaction) (refl, refl, refl, refl, refl)

policy-refused :
    (id : ℕ) (policy : AutomaticCompactionPolicy) (s : System)
    → owner s.agent.state.phase ≡ some id
    → ((replace_automatic_compaction policy s).0 ≡ s)
      × (is_some (replace_automatic_compaction policy s).1 ≡ true)
unfolding replace_automatic_compaction while_idle
policy-refused id policy s e = ground arith

-- While the agent's phase names a run, running or cancelling, a prompt, a continuation and a
-- compaction are refused with this run, and leave state, marker, queues and runs as they were; reset,
-- restoring messages and the replacement of provider, thinking level and configuration are refused
-- with it, and the replacement of the compaction policy with some error, and change nothing.
pub owned-IsBusy : (id : ℕ) (s : System) → owner s.agent.state.phase ≡ some id → IsBusy id s
unfolding start_prompt start_continue reset restore_messages replace_model_provider
    replace_thinking_level replace_configuration replace_automatic_compaction
owned-IsBusy id s e = record {
  no_prompt = λ prompt. start_run-RefusesRun id (prompt ∷ []) false s e;
  no_continue = rw (e, start_continue) refl;
  no_compaction = start_compaction-RefusesRun id s e;
  no_reset = while_idle-Refuses id _ s e;
  no_restore = λ messages. while_idle-Refuses id _ s e;
  no_provider = λ model provider. while_idle-Refuses id _ s e;
  no_thinking = λ level. while_idle-Refuses id _ s e;
  no_configuration = λ configuration. while_idle-Refuses id _ s e;
  no_policy = λ policy. policy-refused id policy s e;
}
