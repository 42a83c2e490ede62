-- ===== src/Compaction/Split/Tail.antt =====
-- run/mod.rs: the retained suffix holds the tokens that were asked for.
use pi_agent_core_rs.Prelude.{
  ℕ, zero, suc, ◌+◌, ◌≤◌, ◌≡◌, refl, sym, ap, ◌∙◌, ◌⊎◌, inl, inr, true, List, [], ◌∷◌, Option, none,
  some, sat_add, arith, ltb, ◌==◌, length, is_empty, get_elem?, drop, Bool-cases,
}
use pi_agent_core_rs.State.Types.{AgentMessage}
use pi_agent_core_rs.Compaction.Split.{
  estimate_messages_tokens, tokens_at, is_tool_result, is_assistant, back_up, skip_results,
  turn_start_before, split_at, retained_start, CompactionSplit, automatic_compaction_split,
}

-- One message further back.
drop-tokens :
    (messages : List AgentMessage) (i : ℕ)
    → estimate_messages_tokens (drop i messages)
      ≡ tokens_at (get_elem? messages i) + estimate_messages_tokens (drop (suc i) messages)
unfolding estimate_messages_tokens tokens_at
drop-tokens [] zero = refl
drop-tokens [] (suc i) = refl
drop-tokens (m ∷ ms) zero = refl
drop-tokens (m ∷ ms) (suc i) = drop-tokens ms i

abbrev Enough : List AgentMessage → ℕ → ℕ → Type 0
Enough messages recent start =
    (start ≡ 0) ⊎ (recent ≤ estimate_messages_tokens (drop start messages))

sat_add_mono : (a b c : ℕ) → a ≤ b → sat_add a c ≤ c + b
unfolding sat_add
sat_add_mono a b c h = ground arith

back_up-Enough :
    (messages : List AgentMessage) (recent start retained : ℕ)
    → retained ≤ estimate_messages_tokens (drop start messages)
    → Enough messages recent (back_up messages recent start retained)
unfolding back_up
back_up-Enough messages recent zero retained h = inl refl
back_up-Enough messages recent (suc start) retained h =
    let more = tokens_at (get_elem? messages start) in
    let next = back_up-Enough messages recent start (sat_add retained more) (
      rw (drop-tokens messages start)
        (sat_add_mono retained (estimate_messages_tokens (drop (suc start) messages)) more h)) in
    elim (Bool-cases (ltb retained recent)) [
      | inl short ↦ rw short next
      | inr full ↦ rw full (inr (ground (arith, full, h)))
    ]

skip_results-Enough :
    (messages : List AgentMessage) (recent start : ℕ)
    → Enough messages recent start
    → Enough messages recent (skip_results messages start)
unfolding skip_results
skip_results-Enough messages recent zero h = inl refl
skip_results-Enough messages recent (suc start) h =
    let back = drop-tokens messages start in
    let next = skip_results-Enough messages recent start (further h back) in
    elim (Bool-cases (is_tool_result (get_elem? messages (suc start)))) [
      | inl more ↦ rw more next
      | inr stop ↦ rw stop h
    ]
  where
    further :
        Enough messages recent (suc start)
        → estimate_messages_tokens (drop start messages)
          ≡ tokens_at (get_elem? messages start)
            + estimate_messages_tokens (drop (suc start) messages)
        → Enough messages recent start
    further (inl e) back = absurd (omega (arith, e))
    further (inr e) back = inr (omega (arith, e, back))

empty : (messages : List AgentMessage) → is_empty messages ≡ true → messages ≡ []
empty [] e = refl
empty (m ∷ ms) e = cc

split_at-retained :
    (messages : List AgentMessage) (start : ℕ) (t : Option ℕ)
    → (split_at messages start t).retained_messages ≡ drop start messages
unfolding split_at
split_at-retained messages start none = refl
split_at-retained messages start (some i) = refl

abbrev pub HoldsRecent : List AgentMessage → ℕ → CompactionSplit → Type 0
HoldsRecent messages recent s =
    (s.retained_messages ≡ messages) ⊎ (recent ≤ estimate_messages_tokens s.retained_messages)

split_at-HoldsRecent :
    (messages : List AgentMessage) (recent start : ℕ) (t : Option ℕ)
    → Enough messages recent start
    → HoldsRecent messages recent (split_at messages start t)
split_at-HoldsRecent messages recent start t (inl e) =
    inl (split_at-retained messages start t ∙ ap (λ i. drop i messages) e)
split_at-HoldsRecent messages recent start t (inr e) =
    inr (rw (split_at-retained messages start t) e)

-- The messages that are retained are all of them or hold at least the estimated tokens asked for.
pub automatic_compaction_split-HoldsRecent :
    (messages : List AgentMessage) (recent : ℕ)
    → HoldsRecent messages recent (automatic_compaction_split messages recent)
unfolding automatic_compaction_split retained_start
automatic_compaction_split-HoldsRecent messages recent =
    let start = retained_start messages recent in
    let enough =
      skip_results-Enough messages recent (back_up messages recent (length messages) 0)
        (back_up-Enough messages recent (length messages) 0 (omega arith)) in
    elim (Bool-cases (is_empty messages)) [
      | inl e ↦ rw e (inl (sym (empty messages e)))
      | inr e ↦ elim (Bool-cases (recent == 0)) [
        | inl z ↦ rw (e, z) (inr (ground (arith, z)))
        | inr z ↦ elim (Bool-cases (is_assistant (get_elem? messages start))) [
          | inl a ↦
              rw (e, z, a)
                (split_at-HoldsRecent messages recent start (turn_start_before messages start)
                  enough)
          | inr a ↦ rw (e, z, a) (split_at-HoldsRecent messages recent start none enough)
        ]
      ]
    ]
