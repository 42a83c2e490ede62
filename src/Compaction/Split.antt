-- ===== src/Compaction/Split.antt =====
-- run/mod.rs: the token estimates and `automatic_compaction_split`. Sums of lengths in `usize` do not
-- overflow for texts that fit in memory and are plain sums here; `saturating_add` is written out.
pub mod Partition
pub mod Tail
use pi_agent_core_rs.Prelude.{
  ℕ, zero, suc, ◌+◌, ◌-◌, ◌/◌, Bool, true, false, List, [], ◌∷◌, ◌++◌, Option, none, some, Text,
  sat_add, ltb, leb, ◌==◌, if◌then◌else◌, length, is_empty, get_elem?, take, drop,
}
use pi_agent_core_rs.Tool.Failure.{ToolFailure}
use pi_agent_core_rs.State.Types.{
  AgentToolCall, AssistantMessage, ToolResultMessage, AgentMessage, user, assistant, tool_result,
}

abbrev text_len : Option Text → ℕ
text_len none = 0
text_len (some t) = length t

abbrev guidance_len : Option ToolFailure → ℕ
guidance_len none = 0
guidance_len (some f) = text_len f.recovery_guidance

call_bytes : List AgentToolCall → ℕ
call_bytes [] = 0
call_bytes (c ∷ cs) =
    sat_add (sat_add (length c.id) (length c.name)) (length c.arguments) + call_bytes cs

unfoldable pub estimate_message_bytes : AgentMessage → ℕ
unfolding call_bytes
estimate_message_bytes (user _ content) = sat_add (length content) 16
estimate_message_bytes (assistant m) =
    sat_add
      (sat_add (sat_add (length m.content) (text_len m.error_message)) (call_bytes m.tool_calls)) 32
estimate_message_bytes (tool_result m) =
    sat_add
      (sat_add
        (sat_add (sat_add (sat_add (length m.tool_call_id) (length m.tool_name)) (length m.content))
          (text_len m.details))
        (guidance_len m.failure))
      32

unfoldable pub estimate_message_tokens : AgentMessage → ℕ
estimate_message_tokens m = sat_add (estimate_message_bytes m) 3 / 4

unfoldable pub estimate_messages_tokens : List AgentMessage → ℕ
estimate_messages_tokens [] = 0
estimate_messages_tokens (m ∷ ms) = estimate_message_tokens m + estimate_messages_tokens ms

tokens_at : Option AgentMessage → ℕ
tokens_at none = 0
tokens_at (some m) = estimate_message_tokens m

abbrev pub is_tool_result : Option AgentMessage → Bool
is_tool_result (some (tool_result _)) = true
is_tool_result _ = false

abbrev pub is_assistant : Option AgentMessage → Bool
is_assistant (some (assistant _)) = true
is_assistant _ = false

abbrev pub is_user : Option AgentMessage → Bool
is_user (some (user _ _)) = true
is_user _ = false

-- The first loop: from `start` down until the tail has `recent` tokens.
back_up : List AgentMessage → ℕ → ℕ → ℕ → ℕ
unfolding tokens_at
back_up messages recent zero retained = zero
back_up messages recent (suc start) retained =
    let rest =
      back_up messages recent start (sat_add retained (tokens_at (get_elem? messages start))) in
    if ltb retained recent then rest else suc start

-- The second loop: down past the tool results.
skip_results : List AgentMessage → ℕ → ℕ
skip_results messages zero = zero
skip_results messages (suc start) =
    let rest = skip_results messages start in
    if is_tool_result (get_elem? messages (suc start)) then rest else suc start

-- `(0..start).rev().find(..)` for a user message.
turn_start_before : List AgentMessage → ℕ → Option ℕ
turn_start_before messages zero = none
turn_start_before messages (suc index) =
    let rest = turn_start_before messages index in
    if is_user (get_elem? messages index) then some index else rest

-- The triple of the source: the prefix, the retained suffix, and the part of a turn between them.
pub record CompactionSplit : Type 0 where
  pub prefix_messages : List AgentMessage
  pub retained_messages : List AgentMessage
  pub split_turn_prefix : List AgentMessage

-- `messages[from..to]`.
abbrev slice : List AgentMessage → ℕ → ℕ → List AgentMessage
slice messages from to = drop from (take to messages)

split_at : List AgentMessage → ℕ → Option ℕ → CompactionSplit
split_at messages start none = record {
  prefix_messages = take start messages;
  retained_messages = drop start messages;
  split_turn_prefix = [];
}
split_at messages start (some turn_start) = record {
  prefix_messages = take turn_start messages;
  retained_messages = drop start messages;
  split_turn_prefix = slice messages turn_start start;
}

-- Where the retained suffix starts.
retained_start : List AgentMessage → ℕ → ℕ
unfolding back_up skip_results
retained_start messages recent = skip_results messages (back_up messages recent (length messages) 0)

unfoldable pub automatic_compaction_split : List AgentMessage → ℕ → CompactionSplit
unfolding retained_start turn_start_before split_at
automatic_compaction_split messages recent =
    let start = retained_start messages recent in
    let whole : CompactionSplit = record {
      prefix_messages = messages;
      retained_messages = [];
      split_turn_prefix = [];
    } in
    if is_empty messages
    then whole
    else if recent == 0
    then whole
    else if is_assistant (get_elem? messages start)
    then split_at messages start (turn_start_before messages start)
    else split_at messages start none
