-- ===== src/Tests/Stream.antt =====
-- model_stream.rs on a response with one tool call.
use pi_agent_core_rs.Prelude.Sets.{set_contains, set_insert, set_remove}
use pi_agent_core_rs.Prelude.{◌≡◌, refl, List, [], ◌∷◌, ◌++◌, none, Text, codes, is_some, text_eq}
use pi_agent_core_rs.Stream.{
  ModelStreamItem, started, tool_call_started, tool_call_finished, finished, stop, ModelStream, new,
  accept, feed,
}
use pi_agent_core_rs.Stream.Grammar.{
  one_if, is_settled, starts, terminals, call_starts, call_finishes, feed_done_balanced,
  feed-starts_and_settles_once,
}

abbrev opening : List ModelStreamItem
opening = started (codes "r1") (codes "m") ∷ tool_call_started (codes "c1") (codes "read") ∷ []

-- A response in which two items are refused.
abbrev response : List ModelStreamItem
response =
    opening
    ++ (tool_call_finished (codes "c2")
        ∷ finished stop none
        ∷ tool_call_finished (codes "c1")
        ∷ finished stop none
        ∷ [])

abbrev opened : ModelStream
opened = (feed new opening).0

feed_done_balanced_example :
    ((k : Text) → call_starts k (feed new response).1 ≡ call_finishes k (feed new response).1)
    × ((feed new response).0.open_tool_calls ≡ [])
unfolding feed accept set_contains set_insert text_eq set_remove
feed_done_balanced_example = feed_done_balanced response refl

feed-starts_and_settles_once_example :
    (starts (feed new response).1 ≡ one_if (is_some (feed new response).0.response_id))
    × (terminals (feed new response).1 ≡ one_if (is_settled (feed new response).0.phase))
feed-starts_and_settles_once_example = feed-starts_and_settles_once response
