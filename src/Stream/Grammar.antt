-- ===== src/Stream/Grammar.antt =====
-- model_stream.rs: what the items that a validator accepts have in common.
use pi_agent_core_rs.Prelude.{
  ℕ, ◌+◌, ◌≡◌, refl, Bool, true, false, List, [], ◌∷◌, none, some, Text, arith, text_eq,
  text_eq_iff, ap, inl, inr, Bool-cases, is_some,
}
use pi_agent_core_rs.Prelude.Sets.{
  set_contains, set_insert, set_contains-insert, set_contains-remove, set_remove_absent,
}
use pi_agent_core_rs.Stream.{
  ModelStreamItem, started, tool_call_started, tool_call_finished, item_is_terminal,
  ModelStreamPhase, idle, active, done, failed, ModelStream, new, ModelStreamError, after_terminal,
  accept, keep_accepted, feed,
}

-- An item that is refused leaves the validator as it was.
pub accept_error_unchanged :
    (s : ModelStream) (item : ModelStreamItem) {e : ModelStreamError}
    → (accept s item).1 ≡ some e
    → (accept s item).0 ≡ s
unfolding accept set_insert
accept_error_unchanged s (tool_call_finished k) h =
    ground (arith, set_remove_absent k s.open_tool_calls)
accept_error_unchanged s item h = ground arith

-- The phases in which a stream has settled.
abbrev pub is_settled : ModelStreamPhase → Bool
is_settled done = true
is_settled failed = true
is_settled _ = false

accept_settled :
    (s : ModelStream) (item : ModelStreamItem)
    → is_settled s.phase ≡ true
    → accept s item ≡ (s, some (after_terminal s.phase item))
unfolding accept
accept_settled s item h = ground arith

-- After the terminal item nothing is accepted and nothing changes, whatever follows.
pub feed-after_terminal :
    (s : ModelStream) (items : List ModelStreamItem)
    → is_settled s.phase ≡ true
    → feed s items ≡ (s, [])
unfolding feed
feed-after_terminal s [] h = refl
feed-after_terminal s (item ∷ items) h =
    rw (accept_settled s item h, feed-after_terminal s items h) refl

abbrev pub one_if : Bool → ℕ
one_if true = 1
one_if false = 0

-- How often a list starts, and finishes, the call `k`.
abbrev pub call_starts : Text → List ModelStreamItem → ℕ
call_starts k [] = 0
call_starts k (tool_call_started j _ ∷ items) = one_if (text_eq j k) + call_starts k items
call_starts k (_ ∷ items) = call_starts k items

abbrev pub call_finishes : Text → List ModelStreamItem → ℕ
call_finishes k [] = 0
call_finishes k (tool_call_finished j ∷ items) = one_if (text_eq j k) + call_finishes k items
call_finishes k (_ ∷ items) = call_finishes k items

abbrev is_failed : ModelStreamPhase → Bool
is_failed failed = true
is_failed _ = false

-- One item keeps the balance of a call, unless it fails the stream.
accept_balance :
    (s : ModelStream) (item : ModelStreamItem) (k : Text) (log : List ModelStreamItem)
    → let (s', e) = accept s item in
      is_failed s'.phase ≡ false
      → call_starts k (keep_accepted item e log)
          + call_finishes k log
          + one_if (set_contains k s.open_tool_calls)
        ≡ call_finishes k (keep_accepted item e log)
          + call_starts k log
          + one_if (set_contains k s'.open_tool_calls)
unfolding accept keep_accepted
accept_balance s (tool_call_started j name) k log h =
    ground (arith, set_contains-insert j k s.open_tool_calls, text_eq_iff j k)
accept_balance s (tool_call_finished j) k log h =
    ground (arith, set_contains-remove j k s.open_tool_calls, text_eq_iff j k)
accept_balance s item k log h = ground arith

accept_stays_failed :
    (s : ModelStream) (items : List ModelStreamItem)
    → is_failed (feed s items).0.phase ≡ false
    → is_failed s.phase ≡ false
accept_stays_failed s items h = elim (Bool-cases (is_failed s.phase)) [
  | inr ok ↦ ok
  | inl bad ↦ absurd (still bad)
]
  where
    still : is_failed s.phase ≡ true → ⊥
    still bad =
        let same = feed-after_terminal s items (ground (arith, bad)) in
        cc (bad, h, ap (λ (r : ModelStream × List ModelStreamItem). is_failed r.0.phase) same)

feed_balance :
    (s : ModelStream) (items : List ModelStreamItem) (k : Text)
    → let (s', log) = feed s items in
      is_failed s'.phase ≡ false
      → call_starts k log + one_if (set_contains k s.open_tool_calls)
        ≡ call_finishes k log + one_if (set_contains k s'.open_tool_calls)
unfolding feed
feed_balance s [] k h = refl
feed_balance s (item ∷ items) k h =
    let (s', e) = accept s item in
    let (s'', log) = feed s' items in
    omega (
      arith,
      accept_balance s item k log (accept_stays_failed s' items h),
      feed_balance s' items k h,
    )

-- What holds of a validator between two items.
pub record IsSane (s : ModelStream) : Type 0 where
  pub idle_fresh : s.phase ≡ idle → s.response_id ≡ none
  pub active_begun : s.phase ≡ active → is_some s.response_id ≡ true
  pub done_begun : s.phase ≡ done → is_some s.response_id ≡ true
  pub done_closed : s.phase ≡ done → s.open_tool_calls ≡ []

pub new-IsSane : IsSane new
new-IsSane = ground arith

accept-IsSane : (s : ModelStream) (item : ModelStreamItem) → IsSane s → IsSane (accept s item).0
unfolding accept
accept-IsSane s item v = ground arith

pub feed-IsSane :
    (s : ModelStream) (items : List ModelStreamItem) → IsSane s → IsSane (feed s items).0
unfolding feed
feed-IsSane s [] v = v
feed-IsSane s (item ∷ items) v = feed-IsSane (accept s item).0 items (accept-IsSane s item v)

-- Whatever items a new validator is fed, if the response finishes normally then every tool call was
-- finished exactly as often as it was started, and no call is open.
pub feed_done_balanced :
    (items : List ModelStreamItem)
    → let (s, log) = feed new items in
      s.phase ≡ done
      → ((k : Text) → call_starts k log ≡ call_finishes k log) × (s.open_tool_calls ≡ [])
feed_done_balanced items h =
    let v = feed-IsSane new items new-IsSane in (λ k. balanced k, v.done_closed h)
  where
    balanced : (k : Text) → call_starts k (feed new items).1 ≡ call_finishes k (feed new items).1
    balanced k =
        let v = feed-IsSane new items new-IsSane in
        let b = feed_balance new items k (rw h refl) in
        let c = rw (v.done_closed h) at b in unfold set_contains in omega (arith, c)

-- How many items of a list begin a response.
abbrev pub starts : List ModelStreamItem → ℕ
starts [] = 0
starts (started _ _ ∷ items) = 1 + starts items
starts (_ ∷ items) = starts items

-- How many items of a list settle it.
abbrev pub terminals : List ModelStreamItem → ℕ
unfolding item_is_terminal
terminals [] = 0
terminals (item ∷ items) = one_if (item_is_terminal item) + terminals items

accept_once :
    (s : ModelStream) (item : ModelStreamItem) (log : List ModelStreamItem)
    → IsSane s
    → let (s', e) = accept s item in
      let log' = keep_accepted item e log in
      (starts log' + one_if (is_some s.response_id) ≡ starts log + one_if (is_some s'.response_id))
      × (terminals log' + one_if (is_settled s.phase)
          ≡ terminals log + one_if (is_settled s'.phase))
unfolding accept keep_accepted item_is_terminal
accept_once s item log v = ground arith

feed_once :
    (s : ModelStream) (items : List ModelStreamItem)
    → IsSane s
    → let (s', log) = feed s items in
      (starts log + one_if (is_some s.response_id) ≡ one_if (is_some s'.response_id))
      × (terminals log + one_if (is_settled s.phase) ≡ one_if (is_settled s'.phase))
unfolding feed item_is_terminal
feed_once s [] v = (omega arith, omega arith)
feed_once s (item ∷ items) v =
    let (s', e) = accept s item in
    let (s'', log) = feed s' items in
    let one = accept_once s item log v in
    let rest = feed_once s' items (accept-IsSane s item v) in
    (omega (arith, one.0, rest.0), omega (arith, one.1, rest.1))

-- Among the items that a new validator accepts at most one starts the response, and exactly one if
-- an identity is recorded; at most one settles it, and exactly one if the phase is terminal.
pub feed-starts_and_settles_once :
    (items : List ModelStreamItem)
    → let (s, log) = feed new items in
      (starts log ≡ one_if (is_some s.response_id)) × (terminals log ≡ one_if (is_settled s.phase))
feed-starts_and_settles_once items =
    let h = feed_once new items new-IsSane in (omega (arith, h.0), omega (arith, h.1))
