-- ===== src/Tests/Registry.antt =====
-- The registry of tools after a replacement and a removal.
use pi_agent_core_rs.Prelude.{ℕ, List, [], ◌∷◌, Text, codes}
use pi_agent_core_rs.Scheduler.{parallel}
use pi_agent_core_rs.Tool.Registry.{AgentTool, RegistryOp, insert_op, remove_op, no_tools, change}
use pi_agent_core_rs.Tool.Registry.Listed.{IsListed, change-IsListed}

-- A schema is a number here.
abbrev tool : Text → AgentTool ℕ
tool name = record {
  name = name;
  description = codes "a tool";
  schema = 0;
  execution_mode = parallel;
}

abbrev changes : List (RegistryOp ℕ)
changes =
    insert_op (tool (codes "read"))
    ∷ insert_op (tool (codes "grep"))
    ∷ insert_op (tool (codes "read"))
    ∷ remove_op (codes "grep")
    ∷ []

change-IsListed_example : IsListed (change changes no_tools)
change-IsListed_example = change-IsListed {Json = ℕ} changes
