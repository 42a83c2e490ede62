-- ===== src/Stream.antt =====
-- crates/tea-protocol/src/model_stream.rs: the validator of one model response stream. A method that
-- takes `&mut self` returns the new validator with its result.
pub mod Grammar
use pi_agent_core_rs.Prelude.{
  ℕ, Bool, true, false, List, [], ◌∷◌, Option, none, some, Text, length, is_empty, if◌then◌else◌,
}
use pi_agent_core_rs.Prelude.Sets.{set_contains, set_insert, set_remove}

-- types.rs: `TokenUsage`.
pub record TokenUsage : Type 0 where
  pub input_tokens : ℕ
  pub output_tokens : ℕ
  pub cached_input_tokens : Option ℕ

pub data FinishReason : Type 0 where
  stop length_limit tool_call cancelled errored : FinishReason
  other : Text → FinishReason

pub data ModelStreamItem : Type 0 where
  started : (response_id model : Text) → ModelStreamItem
  text_delta reasoning_delta : Text → ModelStreamItem
  tool_call_started : (call_id name : Text) → ModelStreamItem
  tool_call_arguments_delta : (call_id delta : Text) → ModelStreamItem
  tool_call_finished : (call_id : Text) → ModelStreamItem
  finished : FinishReason → Option TokenUsage → ModelStreamItem
  error : (message : Text) → ModelStreamItem

-- `ModelStreamItem::is_terminal`.
unfoldable pub item_is_terminal : ModelStreamItem → Bool
item_is_terminal (finished _ _) = true
item_is_terminal (error _) = true
item_is_terminal _ = false

pub data ModelStreamPhase : Type 0 where
  idle active done failed : ModelStreamPhase

-- The call IDs of the set are in the order of `BTreeSet`.
pub record ModelStream : Type 0 where
  pub phase : ModelStreamPhase
  pub response_id : Option Text
  pub model : Option Text
  pub open_tool_calls : List Text

-- `ModelStream::new`.
abbrev pub new : ModelStream
new = record { phase = idle; response_id = none; model = none; open_tool_calls = [] }

-- The item stands where the source keeps its `kind()`.
pub data ModelStreamError : Type 0 where
  expected_start : ModelStreamItem → ModelStreamError
  duplicate_start : ModelStreamError
  after_terminal : ModelStreamPhase → ModelStreamItem → ModelStreamError
  empty_tool_name : ModelStreamError
  duplicate_tool_call unknown_tool_call : Text → ModelStreamError
  open_tool_calls_at_finish : ℕ → ModelStreamError

-- `Ok(())` is `none`.
accept_idle : ModelStream → ModelStreamItem → ModelStream × Option ModelStreamError
accept_idle s (started response_id model) =
    (record s { response_id = some response_id; model = some model; phase = active }, none)
accept_idle s (error _) = (record s { phase = failed }, none)
accept_idle s item = (s, some (expected_start item))

accept_active : ModelStream → ModelStreamItem → ModelStream × Option ModelStreamError
accept_active s (started _ _) = (s, some duplicate_start)
accept_active s (text_delta _) = (s, none)
accept_active s (reasoning_delta _) = (s, none)
accept_active s (tool_call_started call_id name) =
    if is_empty name
    then (s, some empty_tool_name)
    else if set_contains call_id s.open_tool_calls
    then (
      record s { open_tool_calls = set_insert call_id s.open_tool_calls },
      some (duplicate_tool_call call_id),
    )
    else (record s { open_tool_calls = set_insert call_id s.open_tool_calls }, none)
accept_active s (tool_call_arguments_delta call_id _) =
    if set_contains call_id s.open_tool_calls
    then (s, none)
    else (s, some (unknown_tool_call call_id))
accept_active s (tool_call_finished call_id) =
    let s' : ModelStream = record s { open_tool_calls = set_remove call_id s.open_tool_calls } in
    if set_contains call_id s.open_tool_calls
    then (s', none)
    else (s', some (unknown_tool_call call_id))
accept_active s (finished _ _) =
    if is_empty s.open_tool_calls
    then (record s { phase = done }, none)
    else (s, some (open_tool_calls_at_finish (length s.open_tool_calls)))
accept_active s (error _) = (record s { open_tool_calls = []; phase = failed }, none)

accept_in : ModelStreamPhase → ModelStream → ModelStreamItem → ModelStream × Option ModelStreamError
unfolding accept_idle accept_active
accept_in idle s item = accept_idle s item
accept_in active s item = accept_active s item
accept_in done s item = (s, some (after_terminal done item))
accept_in failed s item = (s, some (after_terminal failed item))

unfoldable pub accept : ModelStream → ModelStreamItem → ModelStream × Option ModelStreamError
unfolding accept_in
accept s item = accept_in s.phase s item

-- An adapter that feeds items one after the other, with the items that were accepted.
keep_accepted :
    ModelStreamItem → Option ModelStreamError → List ModelStreamItem → List ModelStreamItem
keep_accepted item none log = item ∷ log
keep_accepted item (some _) log = log

unfoldable pub feed : ModelStream → List ModelStreamItem → ModelStream × List ModelStreamItem
unfolding keep_accepted
feed s [] = (s, [])
feed s (item ∷ items) =
    let (s', e) = accept s item in let (s'', log) = feed s' items in (s'', keep_accepted item e log)
