-- ===== src/Compaction/Validate/Order.antt =====
-- compaction.rs: in an accepted transcript a tool result comes after the call that it answers.
use pi_agent_core_rs.Prelude.{
  ◌≡◌, refl, ◌⊎◌, inl, inr, Bool, true, false, ◌&&◌, ◌||◌, List, [], ◌∷◌, ◌++◌, none, some, Text,
  arith, text_eq, text_eq_iff, Option-cases,
}
use pi_agent_core_rs.Prelude.Sets.{lookup, insert, lookup-insert}
use pi_agent_core_rs.State.Types.{
  AgentToolCall, ToolResultMessage, AgentMessage, user, assistant, tool_result,
}
use pi_agent_core_rs.Compaction.Validate.{
  valid, Seen, nothing_seen, add_call, add_calls, add_result, check_content, check_message,
  check_messages, validate_messages,
}
use pi_agent_core_rs.Compaction.Validate.Collect.{Checked-cases}
use pi_agent_core_rs.Compaction.Validate.Sound.{validate_messages-valid}

-- A call with this ID and this tool's name stands among the calls, or in the transcript.
abbrev pub calls_tool : Text → Text → List AgentToolCall → Bool
calls_tool k name [] = false
calls_tool k name (c ∷ cs) = (text_eq c.id k && text_eq c.name name) || calls_tool k name cs

abbrev pub was_called : Text → Text → List AgentMessage → Bool
was_called k name [] = false
was_called k name (user _ _ ∷ ms) = was_called k name ms
was_called k name (assistant m ∷ ms) = calls_tool k name m.tool_calls || was_called k name ms
was_called k name (tool_result _ ∷ ms) = was_called k name ms

add_calls-lookup :
    (cs : List AgentToolCall) (calls : List (Text × Text)) {calls' : List (Text × Text)}
    (k name : Text)
    → add_calls cs calls ≡ valid calls'
    → lookup k calls' ≡ some name
    → (lookup k calls ≡ some name) ⊎ (calls_tool k name cs ≡ true)
unfolding add_calls add_call
add_calls-lookup [] calls k name e h = inl (ground arith)
add_calls-lookup (c ∷ cs) calls k name e h = elim (Option-cases (lookup c.id calls)) [
  | inl q ↦
      let e' = rw (q, add_calls, add_call) at e in
      ground (
        arith,
        add_calls-lookup cs (insert c.id c.name calls) k name e' h,
        lookup-insert c.id k c.name calls,
        text_eq_iff c.id k,
        text_eq_iff c.name name,
      )
  | inr (n, q) ↦ let e' = rw (q, add_calls, add_call) at e in cc
]

check_message-lookup :
    (m : AgentMessage) (s : Seen) {s' : Seen} (k name : Text)
    → check_message m s ≡ valid s'
    → lookup k s'.tool_calls ≡ some name
    → (lookup k s.tool_calls ≡ some name) ⊎ (was_called k name (m ∷ []) ≡ true)
unfolding check_message check_content
check_message-lookup (user _ _) s k name e h = ground arith
check_message-lookup (tool_result m) s k name e h = ground arith
check_message-lookup (assistant m) s k name e h =
    elim (Checked-cases (add_calls m.tool_calls s.tool_calls)) [
      | inl (calls, q) ↦ ground (arith, q, add_calls-lookup m.tool_calls s.tool_calls k name q)
      | inr (bad, q) ↦ ground (arith, q)
    ]

was_called-cons :
    (k name : Text) (m : AgentMessage) (ms : List AgentMessage)
    → was_called k name (m ∷ ms) ≡ (was_called k name (m ∷ []) || was_called k name ms)
was_called-cons k name (user _ _) ms = refl
was_called-cons k name (tool_result _) ms = refl
was_called-cons k name (assistant m) ms = ground arith

-- What the answered call was when the transcript is read from `s` on.
answered :
    (pre post : List AgentMessage) (r : ToolResultMessage) (s : Seen) {s' : Seen}
    → check_messages (pre ++ tool_result r ∷ post) s ≡ valid s'
    → (lookup r.tool_call_id s.tool_calls ≡ some r.tool_name)
      ⊎ (was_called r.tool_call_id r.tool_name pre ≡ true)
unfolding check_messages
answered [] post r s e = elim (Option-cases (lookup r.tool_call_id s.tool_calls)) [
  | inl q ↦ absurd (unfold check_message check_content add_result in ground (arith, q))
  | inr (name, q) ↦ inl (
      unfold check_message check_content add_result in
      ground (arith, q, text_eq_iff name r.tool_name))
]
answered (m ∷ pre) post r s e = elim (Checked-cases (check_message m s)) [
  | inl (next, q) ↦
      let e' = rw (q, check_messages) at e in
      ground (
        arith,
        answered pre post r next e',
        check_message-lookup m s r.tool_call_id r.tool_name q,
        was_called-cons r.tool_call_id r.tool_name m pre,
      )
  | inr (bad, q) ↦ let e' = rw (q, check_messages) at e in cc
]

-- In a transcript that passes validation every tool result is preceded by an assistant message with a
-- call of the same ID to a tool of the same name.
pub validate_messages_answers :
    (pre post : List AgentMessage) (r : ToolResultMessage)
    → validate_messages (pre ++ tool_result r ∷ post) ≡ none
    → was_called r.tool_call_id r.tool_name pre ≡ true
unfolding lookup
validate_messages_answers pre post r e =
    let (s, q, m) = validate_messages-valid (pre ++ tool_result r ∷ post) e in
    let a = answered pre post r nothing_seen q in ground (arith, a)
