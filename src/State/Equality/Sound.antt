-- ===== src/State/Equality/Sound.antt =====
-- Messages that compare equal are equal.
use pi_agent_core_rs.Prelude.{
  Bool, true, ◌&&◌, [], ◌∷◌, none, some, text_eq, text_eq_iff, ◌≡◌, refl, arith, ap,
}
use pi_agent_core_rs.State.Types.{user, assistant, tool_result}
use pi_agent_core_rs.State.Equality.{
  option_eq, list_eq, nat_eq, bool_eq, stop_reason_eq, disposition_eq, failure_eq, usage_eq,
  tool_call_eq, assistant_eq, tool_result_eq, message_eq,
}

-- A test that answers `true` only for equal values.
abbrev pub IsSound : {A : Type 0} → (A → A → Bool) → Type 0
IsSound {A} same = (a b : A) → same a b ≡ true → a ≡ b

text_eq-IsSound : IsSound text_eq
text_eq-IsSound s t h = (text_eq_iff s t).0 h

nat_eq-IsSound : IsSound nat_eq
nat_eq-IsSound a b h = ground arith

bool_eq-IsSound : IsSound bool_eq
bool_eq-IsSound a b h = ground arith

option_eq-IsSound : {A : Type 0} {same : A → A → Bool} → IsSound same → IsSound (option_eq same)
option_eq-IsSound sound none none h = refl
option_eq-IsSound sound none (some b) h = cc
option_eq-IsSound sound (some a) none h = cc
option_eq-IsSound sound (some a) (some b) h = ap some (sound a b h)

list_eq-IsSound : {A : Type 0} {same : A → A → Bool} → IsSound same → IsSound (list_eq same)
unfolding list_eq
list_eq-IsSound sound [] [] h = refl
list_eq-IsSound sound [] (b ∷ bs) h = cc
list_eq-IsSound sound (a ∷ as') [] h = cc
list_eq-IsSound sound (a ∷ as') (b ∷ bs) h = ground (arith, sound a b, list_eq-IsSound sound as' bs)

stop_reason_eq-IsSound : IsSound stop_reason_eq
stop_reason_eq-IsSound a b h = ground arith

disposition_eq-IsSound : IsSound disposition_eq
disposition_eq-IsSound a b h = ground arith

failure_eq-IsSound : IsSound failure_eq
unfolding failure_eq
failure_eq-IsSound a b h = ground (
  arith,
  disposition_eq-IsSound a.disposition b.disposition,
  option_eq-IsSound text_eq-IsSound a.signature b.signature,
  option_eq-IsSound text_eq-IsSound a.recovery_guidance b.recovery_guidance,
)

usage_eq-IsSound : IsSound usage_eq
unfolding usage_eq
usage_eq-IsSound a b h =
    let counter = option_eq-IsSound nat_eq-IsSound in
    ground (
      arith,
      counter a.input_tokens b.input_tokens,
      counter a.output_tokens b.output_tokens,
      counter a.reasoning_tokens b.reasoning_tokens,
      counter a.cache_read_tokens b.cache_read_tokens,
      counter a.cache_write_tokens b.cache_write_tokens,
      option_eq-IsSound text_eq-IsSound a.cost b.cost,
    )

tool_call_eq-IsSound : IsSound tool_call_eq
unfolding tool_call_eq
tool_call_eq-IsSound a b h = ground (
  arith,
  text_eq-IsSound a.id b.id,
  text_eq-IsSound a.name b.name,
  text_eq-IsSound a.arguments b.arguments,
)

assistant_eq-IsSound : IsSound assistant_eq
unfolding assistant_eq
assistant_eq-IsSound a b h = ground (
  arith,
  text_eq-IsSound a.content b.content,
  list_eq-IsSound tool_call_eq-IsSound a.tool_calls b.tool_calls,
  option_eq-IsSound stop_reason_eq-IsSound a.stop_reason b.stop_reason,
  option_eq-IsSound text_eq-IsSound a.error_message b.error_message,
)

both : (x y : Bool) → (x && y) ≡ true → (x ≡ true) × (y ≡ true)
both x y h = ground arith

tool_result_eq-IsSound : IsSound tool_result_eq
unfolding tool_result_eq
tool_result_eq-IsSound a b h =
    let (id, h1) = both _ _ h in
    let (tool_call_id, h2) = both _ _ h1 in
    let (tool_name, h3) = both _ _ h2 in
    let (content, h4) = both _ _ h3 in
    let (details, h5) = both _ _ h4 in
    let (usage, h6) = both _ _ h5 in
    let (added_tool_names, h7) = both _ _ h6 in
    let (terminate, h8) = both _ _ h7 in
    let (is_error, h9) = both _ _ h8 in
    λ i. record {
      id = nat_eq-IsSound a.id b.id id i;
      tool_call_id = text_eq-IsSound a.tool_call_id b.tool_call_id tool_call_id i;
      tool_name = text_eq-IsSound a.tool_name b.tool_name tool_name i;
      content = text_eq-IsSound a.content b.content content i;
      details = option_eq-IsSound text_eq-IsSound a.details b.details details i;
      usage = option_eq-IsSound usage_eq-IsSound a.usage b.usage usage i;
      added_tool_names =
          list_eq-IsSound text_eq-IsSound a.added_tool_names b.added_tool_names added_tool_names i;
      terminate = bool_eq-IsSound a.terminate b.terminate terminate i;
      is_error = bool_eq-IsSound a.is_error b.is_error is_error i;
      failure = option_eq-IsSound failure_eq-IsSound a.failure b.failure h9 i;
    }

pub message_eq-IsSound : IsSound message_eq
unfolding message_eq
message_eq-IsSound (user i s) (user j t) h = ground (arith, text_eq-IsSound s t)
message_eq-IsSound (assistant a) (assistant b) h = ap assistant (assistant_eq-IsSound a b h)
message_eq-IsSound (tool_result a) (tool_result b) h = ap tool_result (tool_result_eq-IsSound a b h)
message_eq-IsSound (user i s) (assistant b) h = cc
message_eq-IsSound (user i s) (tool_result b) h = cc
message_eq-IsSound (assistant a) (user j t) h = cc
message_eq-IsSound (assistant a) (tool_result b) h = cc
message_eq-IsSound (tool_result a) (user j t) h = cc
message_eq-IsSound (tool_result a) (assistant b) h = cc
