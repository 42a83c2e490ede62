-- ===== src/Tool/Registry.antt =====
-- tool.rs: the ordered registry of tools. A tool is what its trait's methods tell of it; the JSON value
-- of its schema is of a library's type, which is a parameter.
pub mod Listed
use pi_agent_core_rs.Prelude.{
  Bool, true, false, not, List, [], ◌∷◌, ◌++◌, Option, none, some, Text, text_eq, if◌then◌else◌,
  is_empty, is_some,
}
use pi_agent_core_rs.Prelude.Sets as Sets
use pi_agent_core_rs.Scheduler.{ToolExecutionMode}

pub record AgentTool (Json : Type 0) : Type 0 where
  pub name : Text
  pub description : Text
  pub schema : Json
  pub execution_mode : ToolExecutionMode

pub record ToolRegistry (Json : Type 0) : Type 0 where
  pub tools : List (Text × AgentTool Json)
  pub order : List Text

-- `order.retain(|entry| entry != name)`.
unfoldable pub retain_other : Text → List Text → List Text
retain_other name [] = []
retain_other name (entry ∷ order) =
    let rest = retain_other name order in if text_eq entry name then rest else entry ∷ rest

pub data RegistryOp (Json : Type 0) : Type 0 where
  insert_op : AgentTool Json → RegistryOp Json
  remove_op : Text → RegistryOp Json

module _ {Json : Type 0} where
  -- `ToolRegistry::default()`.
  abbrev pub no_tools : ToolRegistry Json
  no_tools = record { tools = []; order = [] }

  unfoldable pub insert_tool : AgentTool Json → ToolRegistry Json → ToolRegistry Json
  insert_tool tool r = record {
    tools = Sets.insert tool.name tool r.tools;
    order = if is_some (Sets.lookup tool.name r.tools) then r.order else r.order ++ tool.name ∷ [];
  }

  -- The registry after `remove`; its result is `get` before.
  unfoldable pub remove_tool : Text → ToolRegistry Json → ToolRegistry Json
  remove_tool name r = record {
    tools = Sets.remove name r.tools;
    order = if is_some (Sets.lookup name r.tools) then retain_other name r.order else r.order;
  }

  unfoldable pub get_tool : Text → ToolRegistry Json → Option (AgentTool Json)
  get_tool name r = Sets.lookup name r.tools

  keep_tool : Option (AgentTool Json) → List (AgentTool Json) → List (AgentTool Json)
  keep_tool none tools = tools
  keep_tool (some tool) tools = tool ∷ tools

  -- The tools that `definitions` describes, by the names in order.
  unfoldable pub definitions_of : List Text → ToolRegistry Json → List (AgentTool Json)
  unfolding keep_tool
  definitions_of [] r = []
  definitions_of (name ∷ order) r = keep_tool (Sets.lookup name r.tools) (definitions_of order r)

  unfoldable pub definitions : ToolRegistry Json → List (AgentTool Json)
  definitions r = definitions_of r.order r

  unfoldable pub change : List (RegistryOp Json) → ToolRegistry Json → ToolRegistry Json
  change [] r = r
  change (insert_op tool ∷ ops) r = change ops (insert_tool tool r)
  change (remove_op name ∷ ops) r = change ops (remove_tool name r)
