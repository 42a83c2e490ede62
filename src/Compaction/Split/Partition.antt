-- ===== src/Compaction/Split/Partition.antt =====
-- run/mod.rs: the three parts of a split are the transcript, cut where a turn may be cut.
use mathlib.Core.List.{append-nil}
use pi_agent_core_rs.Prelude.{
  ℕ, zero, suc, ◌≤◌, ◌<◌, ◌≡◌, refl, ap, ◌⊎◌, inl, inr, true, false, List, [], ◌∷◌, ◌++◌, Option,
  none, some, arith, ◌==◌, length, is_empty, get_elem?, take, drop, take-append-drop, Bool-cases,
}
use pi_agent_core_rs.State.Types.{AgentMessage}
use pi_agent_core_rs.Compaction.Split.{
  is_tool_result, is_assistant, is_user, back_up, skip_results, turn_start_before, CompactionSplit,
  split_at, retained_start, automatic_compaction_split,
}

-- Facts about cutting a list in two or three.
drop-take-drop :
    (a b : ℕ) (xs : List AgentMessage) → a ≤ b → drop a (take b xs) ++ drop b xs ≡ drop a xs
drop-take-drop zero b xs h = take-append-drop b xs
drop-take-drop (suc a) zero xs h = absurd (omega arith)
drop-take-drop (suc a) (suc b) [] h = refl
drop-take-drop (suc a) (suc b) (x ∷ xs) h = drop-take-drop a b xs (omega arith)

-- The message at `i` is the first behind a cut there.
head-drop : (i : ℕ) (xs : List AgentMessage) → get_elem? (drop i xs) 0 ≡ get_elem? xs i
head-drop zero [] = refl
head-drop zero (x ∷ xs) = refl
head-drop (suc i) [] = refl
head-drop (suc i) (x ∷ xs) = head-drop i xs

no_orphan :
    (messages : List AgentMessage) (start : ℕ)
    → ((start ≡ 0) ⊎ (is_tool_result (get_elem? messages start) ≡ false))
    → is_tool_result (get_elem? (drop start messages) 0) ≡ true
    → drop start messages ≡ messages
no_orphan messages start (inl zero_start) h = ap (λ i. drop i messages) zero_start
no_orphan messages start (inr other) h = let h' = rw (head-drop start messages) at h in cc

head-drop-take :
    (a b : ℕ) (xs : List AgentMessage) → a < b → get_elem? (drop a (take b xs)) 0 ≡ get_elem? xs a
head-drop-take zero zero xs h = absurd (omega arith)
head-drop-take zero (suc b) [] h = refl
head-drop-take zero (suc b) (x ∷ xs) h = refl
head-drop-take (suc a) zero xs h = absurd (omega arith)
head-drop-take (suc a) (suc b) [] h = refl
head-drop-take (suc a) (suc b) (x ∷ xs) h = head-drop-take a b xs (omega arith)

turn_start_found :
    (messages : List AgentMessage) (start : ℕ) {t : ℕ}
    → turn_start_before messages start ≡ some t
    → (t < start) × (is_user (get_elem? messages t) ≡ true)
unfolding turn_start_before
turn_start_found messages zero {t} e = cc
turn_start_found messages (suc index) {t} e =
    elim (Bool-cases (is_user (get_elem? messages index))) [
      | inl found ↦ ground (arith, found)
      | inr other ↦
          let e' = rw (other) at e in
          let h = turn_start_found messages index {t = t} e' in (omega (arith, h.0), h.1)
    ]

-- Where the second loop stops there is no tool result, or it is the first message.
skip_results-stop :
    (messages : List AgentMessage) (start : ℕ)
    → (skip_results messages start ≡ 0)
      ⊎ (is_tool_result (get_elem? messages (skip_results messages start)) ≡ false)
unfolding skip_results
skip_results-stop messages zero = inl refl
skip_results-stop messages (suc start) =
    elim (Bool-cases (is_tool_result (get_elem? messages (suc start)))) [
      | inl more ↦ rw more (skip_results-stop messages start)
      | inr stop ↦ inr (rw stop stop)
    ]

abbrev pub rejoin : CompactionSplit → List AgentMessage
rejoin s = s.prefix_messages ++ (s.split_turn_prefix ++ s.retained_messages)

split_at-rejoin :
    (messages : List AgentMessage) (start : ℕ) (t : Option ℕ)
    → ((i : ℕ) → t ≡ some i → i < start)
    → rejoin (split_at messages start t) ≡ messages
unfolding split_at
split_at-rejoin messages start none before = take-append-drop start messages
split_at-rejoin messages start (some i) before =
    let h = before i refl in
    rw (drop-take-drop i start messages (omega (arith, h))) (take-append-drop i messages)

-- What a split promises about where it cuts.
pub record CutsAtTurns (messages : List AgentMessage) (s : CompactionSplit) : Type 0 where
  pub all_kept : rejoin s ≡ messages
  pub no_orphan_result :
      is_tool_result (get_elem? s.retained_messages 0) ≡ true → s.retained_messages ≡ messages
  pub turn_begins :
      is_empty s.split_turn_prefix ≡ false
      → (is_user (get_elem? s.split_turn_prefix 0) ≡ true)
        × (is_assistant (get_elem? s.retained_messages 0) ≡ true)

whole-CutsAtTurns :
    (messages : List AgentMessage)
    → CutsAtTurns messages
        (record { prefix_messages = messages; retained_messages = []; split_turn_prefix = [] })
whole-CutsAtTurns messages = record {
  all_kept = append-nil messages;
  no_orphan_result = λ h. cc;
  turn_begins = λ h. cc;
}

split_at-CutsAtTurns :
    (messages : List AgentMessage) (start : ℕ) (t : Option ℕ)
    → ((start ≡ 0) ⊎ (is_tool_result (get_elem? messages start) ≡ false))
    → ((i : ℕ)
        → t ≡ some i
        → (i < start)
          × (is_user (get_elem? messages i) ≡ true)
          × (is_assistant (get_elem? messages start) ≡ true))
    → CutsAtTurns messages (split_at messages start t)
unfolding split_at
split_at-CutsAtTurns messages start none stop found = record {
  all_kept = split_at-rejoin messages start none (λ i h. cc);
  no_orphan_result = λ h. no_orphan messages start stop h;
  turn_begins = λ h. cc;
}
split_at-CutsAtTurns messages start (some i) stop found = record {
  all_kept = split_at-rejoin messages start (some i) (λ j h. (found j h).0);
  no_orphan_result = λ h. no_orphan messages start stop h;
  turn_begins = λ h. (
    rw (head-drop-take i start messages (found i refl).0) ((found i refl).1),
    rw (head-drop start messages) ((found i refl).2),
  );
}

-- The split cuts the transcript into prefix, split turn and retained messages without losing or
-- reordering any; what is retained starts with a tool result only if it is the whole transcript; and
-- a split turn starts with a user message, with an assistant message behind it.
pub automatic_compaction_split-CutsAtTurns :
    (messages : List AgentMessage) (recent : ℕ)
    → CutsAtTurns messages (automatic_compaction_split messages recent)
unfolding automatic_compaction_split retained_start
automatic_compaction_split-CutsAtTurns messages recent =
    let start = retained_start messages recent in
    let stop = skip_results-stop messages (back_up messages recent (length messages) 0) in
    let none_found = split_at-CutsAtTurns messages start none stop (λ i h. cc) in
    let whole = whole-CutsAtTurns messages in
    elim (Bool-cases (is_empty messages)) [
      | inl e ↦ rw e whole
      | inr e ↦ elim (Bool-cases (recent == 0)) [
        | inl z ↦ rw (e, z) whole
        | inr z ↦ elim (Bool-cases (is_assistant (get_elem? messages start))) [
          | inl a ↦
              rw (e, z, a)
                (split_at-CutsAtTurns messages start (turn_start_before messages start) stop (λ i h.
                  (
                    (turn_start_found messages start h).0,
                    (turn_start_found messages start h).1,
                    a,
                  )))
          | inr a ↦ rw (e, z, a) none_found
        ]
      ]
    ]
