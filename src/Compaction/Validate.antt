-- ===== src/Compaction/Validate.antt =====
-- compaction.rs: `validate_messages`. The error stands for the text that is formatted from it; a
-- `BTreeSet<MessageId>` is the list of its elements.
pub mod Collect
pub mod Sound
pub mod Order
use pi_agent_core_rs.Prelude.{
  ℕ, Bool, true, false, not, ◌||◌, List, [], ◌∷◌, Option, none, some, Text, u64_max, text_eq, ◌==◌,
  if◌then◌else◌, is_empty,
}
use pi_agent_core_rs.Prelude.Sets.{set_contains, set_insert, lookup, insert}
use pi_agent_core_rs.State.Types.{
  AgentToolCall, AssistantMessage, ToolResultMessage, AgentMessage, user, assistant, tool_result,
  message_id,
}

pub data InvalidReplacement : Type 0 where
  reserved_id : InvalidReplacement
  repeated_id : ℕ → InvalidReplacement
  reused_call : (id previous_name name : Text) → InvalidReplacement
  repeated_result : (id : Text) → InvalidReplacement
  misnamed_result : (id tool_name call_name : Text) → InvalidReplacement
  result_without_call : (id : Text) → InvalidReplacement
  missing_results : List Text → InvalidReplacement

pub data Checked {ℓ} (A : Type ℓ) : Type ℓ where
  valid : A → Checked A
  invalid : InvalidReplacement → Checked A

-- The three collections of the loop.
pub record Seen : Type 0 where
  pub message_ids : List ℕ
  pub tool_calls : List (Text × Text)
  pub tool_results : List Text

abbrev pub nothing_seen : Seen
nothing_seen = record { message_ids = []; tool_calls = []; tool_results = [] }

abbrev pub number_in : ℕ → List ℕ → Bool
number_in n [] = false
number_in n (m ∷ ms) = m == n || number_in n ms

add_call : AgentToolCall → Option Text → List (Text × Text) → Checked (List (Text × Text))
add_call c none calls = valid (insert c.id c.name calls)
add_call c (some previous) calls = invalid (reused_call c.id previous c.name)

add_calls : List AgentToolCall → List (Text × Text) → Checked (List (Text × Text))
unfolding add_call
add_calls [] calls = valid calls
add_calls (c ∷ cs) calls = elim (add_call c (lookup c.id calls) calls) [
  | invalid e ↦ invalid e
  | valid calls' ↦ add_calls cs calls'
]

add_result : ToolResultMessage → Option Text → List Text → Checked (List Text)
add_result m none results = invalid (result_without_call m.tool_call_id)
add_result m (some call_name) results =
    if text_eq call_name m.tool_name
    then if set_contains m.tool_call_id results
      then invalid (repeated_result m.tool_call_id)
      else valid (set_insert m.tool_call_id results)
    else invalid (misnamed_result m.tool_call_id m.tool_name call_name)

-- The `match message` of the loop body.
unfoldable pub check_content : AgentMessage → Seen → Checked Seen
unfolding add_calls add_result
check_content (user _ _) s = valid s
check_content (assistant m) s = elim (add_calls m.tool_calls s.tool_calls) [
  | invalid e ↦ invalid e
  | valid calls ↦ valid (record s { tool_calls = calls })
]
check_content (tool_result m) s =
    elim (add_result m (lookup m.tool_call_id s.tool_calls) s.tool_results) [
      | invalid e ↦ invalid e
      | valid results ↦ valid (record s { tool_results = results })
    ]

-- One round of the loop.
check_message : AgentMessage → Seen → Checked Seen
unfolding check_content
check_message m s =
    let id = message_id m in
    if id == 0 || id == u64_max
    then invalid reserved_id
    else if number_in id s.message_ids
    then invalid (repeated_id id)
    else check_content m (record s { message_ids = id ∷ s.message_ids })

pub check_messages : List AgentMessage → Seen → Checked Seen
unfolding check_message
check_messages [] s = valid s
check_messages (m ∷ ms) s = elim (check_message m s) [
  | invalid e ↦ invalid e
  | valid s' ↦ check_messages ms s'
]

-- The calls that have no result.
pub missing : List (Text × Text) → List Text → List Text
missing [] results = []
missing ((k, _) ∷ calls) results =
    let rest = missing calls results in if set_contains k results then rest else k ∷ rest

-- `none` is `Ok(())`.
unfoldable pub validate_messages : List AgentMessage → Option InvalidReplacement
unfolding check_messages missing
validate_messages ms = elim (check_messages ms nothing_seen) [
  | invalid e ↦ some e
  | valid s ↦
      let absent = missing s.tool_calls s.tool_results in
      if is_empty absent then none else some (missing_results absent)
]
