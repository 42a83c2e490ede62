-- ===== src/Tool/Registry/Listed.antt =====
-- tool.rs: the names in order are those of the registered tools, each once.
use pi_agent_core_rs.Prelude.{
  ℕ, ◌+◌, ◌≡◌, refl, Bool, true, false, List, [], ◌∷◌, ◌++◌, Text, arith, text_eq, text_eq_iff,
  if◌then◌else◌, is_some,
}
use pi_agent_core_rs.Prelude.Sets.{lookup, lookup-insert, lookup-remove}
use pi_agent_core_rs.Tool.Registry.{
  AgentTool, ToolRegistry, retain_other, no_tools, insert_tool, remove_tool, RegistryOp, insert_op,
  remove_op, change,
}

abbrev pub one_for : Bool → ℕ
one_for true = 1
one_for false = 0

-- How often a name stands in a list.
abbrev pub times : Text → List Text → ℕ
times k [] = 0
times k (name ∷ names) = one_for (text_eq name k) + times k names

times-snoc :
    (k name : Text) (names : List Text)
    → times k (names ++ name ∷ []) ≡ times k names + one_for (text_eq name k)
times-snoc k name [] = omega arith
times-snoc k name (n ∷ names) = omega (arith, times-snoc k name names)

times-retain_other :
    (k name : Text) (names : List Text)
    → times k (retain_other name names) ≡ (if text_eq name k then 0 else times k names)
unfolding retain_other
times-retain_other k name [] = ground arith
times-retain_other k name (n ∷ names) = ground (
  arith,
  text_eq_iff n name,
  text_eq_iff name k,
  text_eq_iff n k,
  times-retain_other k name names,
)

module _ {Json : Type 0} where
  -- Every name stands in the order as often as there is a tool of that name, once or not at all.
  abbrev pub IsListed : ToolRegistry Json → Type 0
  IsListed r = (k : Text) → times k r.order ≡ one_for (is_some (lookup k r.tools))

  insert_tool-IsListed :
      (tool : AgentTool Json) (r : ToolRegistry Json) → IsListed r → IsListed (insert_tool tool r)
  unfolding insert_tool
  insert_tool-IsListed tool r h k = ground (
    arith,
    h k,
    text_eq_iff tool.name k,
    times-snoc k tool.name r.order,
    lookup-insert tool.name k tool r.tools,
  )

  remove_tool-IsListed :
      (name : Text) (r : ToolRegistry Json) → IsListed r → IsListed (remove_tool name r)
  unfolding remove_tool
  remove_tool-IsListed name r h k = ground (
    arith,
    h k,
    text_eq_iff name k,
    times-retain_other k name r.order,
    lookup-remove name k r.tools,
  )

  change_from-IsListed :
      (ops : List (RegistryOp Json)) (r : ToolRegistry Json) → IsListed r → IsListed (change ops r)
  unfolding change
  change_from-IsListed [] r h = h
  change_from-IsListed (insert_op tool ∷ ops) r h =
      change_from-IsListed ops (insert_tool tool r) (insert_tool-IsListed tool r h)
  change_from-IsListed (remove_op name ∷ ops) r h =
      change_from-IsListed ops (remove_tool name r) (remove_tool-IsListed name r h)

  -- After any insertions and removals on a new registry, every name stands in the order exactly once if
  -- a tool is registered under it, and not at all if none is.
  pub change-IsListed : (ops : List (RegistryOp Json)) → IsListed (change ops no_tools)
  change-IsListed ops = change_from-IsListed ops no_tools (λ k. unfold lookup in refl)
