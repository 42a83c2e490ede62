-- ===== src/Compaction/Validate/Sound.antt =====
-- compaction.rs: what a transcript that `validate_messages` accepts satisfies.
use pi_agent_core_rs.Prelude.{
  ℕ, ◌+◌, ◌≤◌, ◌<◌, ◌≡◌, refl, inl, inr, true, false, ◌||◌, List, [], ◌∷◌, none, Text, arith,
  u64_max, text_eq_iff, ◌==◌, is_empty, is_some, All, Bool-cases,
}
use pi_agent_core_rs.Prelude.Sets.{set_contains, lookup}
use pi_agent_core_rs.State.Types.{AgentMessage, user, assistant, tool_result, message_id}
use pi_agent_core_rs.Compaction.Validate.{
  valid, Seen, nothing_seen, number_in, check_content, check_message, check_messages, missing,
  validate_messages,
}
use pi_agent_core_rs.Compaction.Validate.Collect.{
  count_calls, count_results, count_ids, ids_seen, Checked-cases, Adds, check_content-Adds,
}

abbrev pub IdInRange : AgentMessage → Type 0
IdInRange m = (0 < message_id m) × (message_id m < u64_max)

check_content-ids :
    (m : AgentMessage) (s : Seen) {s' : Seen}
    → check_content m s ≡ valid s'
    → s'.message_ids ≡ s.message_ids
unfolding check_content
check_content-ids (user id content) s e = ground arith
check_content-ids (assistant m) s e = ground arith
check_content-ids (tool_result m) s e = ground arith

-- What an accepted message tells.
record Accepted (m : AgentMessage) (s s' : Seen) : Type 0 where
  fresh : Seen
  content : check_content m fresh ≡ valid s'
  same_calls : fresh.tool_calls ≡ s.tool_calls
  same_results : fresh.tool_results ≡ s.tool_results
  in_range : IdInRange m
  new_id : number_in (message_id m) s.message_ids ≡ false
  ids : s'.message_ids ≡ message_id m ∷ s.message_ids

check_message-Accepted :
    (m : AgentMessage) (s : Seen) {s' : Seen}
    → message_id m ≤ u64_max
    → check_message m s ≡ valid s'
    → Accepted m s s'
unfolding check_message
check_message-Accepted m s word e =
    elim (Bool-cases (message_id m == 0 || message_id m == u64_max)) [
      | inl reserved ↦ let e' = rw reserved at e in cc
      | inr ok ↦
          let e' = rw ok at e in
          elim (Bool-cases (number_in (message_id m) s.message_ids)) [
            | inl old ↦ let e'' = rw old at e' in cc
            | inr new ↦
                let e'' = rw new at e' in
                let fresh : Seen = record s { message_ids = message_id m ∷ s.message_ids } in
                record {
                  fresh = fresh;
                  content = e'';
                  same_calls = refl;
                  same_results = refl;
                  in_range = ground (arith, ok);
                  new_id = new;
                  ids = check_content-ids m fresh e'';
                }
          ]
    ]

abbrev pub WordIds : List AgentMessage → Type 0
WordIds ms = All (λ m. message_id m ≤ u64_max) ms

check_messages-Adds :
    (ms : List AgentMessage) (s : Seen) {s' : Seen} (k : Text)
    → WordIds ms
    → check_messages ms s ≡ valid s'
    → Adds k (count_calls k ms) (count_results k ms) s s'
unfolding check_messages
check_messages-Adds [] s k w e = ground arith
check_messages-Adds (m ∷ ms) s k w e = elim (Checked-cases (check_message m s)) [
  | inl (next, q) ↦
      let e' = rw (q, check_messages) at e in
      let a = check_message-Accepted m s w.0 q in
      let one = check_content-Adds m a.fresh k a.content in
      let rest = check_messages-Adds ms next k w.1 e' in
      record {
        call_counted = ground (arith, a.same_calls, one.call_counted, rest.call_counted);
        result_counted = ground (arith, a.same_results, one.result_counted, rest.result_counted);
        results_called =
            λ h. rest.results_called (one.results_called (rw (a.same_calls, a.same_results) h));
      }
  | inr (bad, q) ↦ let e' = rw (q, check_messages) at e in cc
]

check_messages-ids :
    (ms : List AgentMessage) (s : Seen) {s' : Seen} (n : ℕ)
    → WordIds ms
    → check_messages ms s ≡ valid s'
    → (ids_seen n s + count_ids n ms ≡ ids_seen n s') × All IdInRange ms
unfolding check_messages
check_messages-ids [] s n w e = (ground arith, tt)
check_messages-ids (m ∷ ms) s n w e = elim (Checked-cases (check_message m s)) [
  | inl (next, q) ↦
      let e' = rw (q, check_messages) at e in
      let a = check_message-Accepted m s w.0 q in
      let rest = check_messages-ids ms next n w.1 e' in
      (ground (arith, a.ids, a.new_id, rest.0), (a.in_range, rest.1))
  | inr (bad, q) ↦ let e' = rw (q, check_messages) at e in cc
]

missing-none :
    (calls : List (Text × Text)) (results : List Text) (k : Text)
    → is_empty (missing calls results) ≡ true
    → is_some (lookup k calls) ≡ true
    → set_contains k results ≡ true
unfolding missing lookup
missing-none [] results k e h = cc
missing-none ((j, name) ∷ calls) results k e h =
    ground (arith, missing-none calls results k, text_eq_iff j k)

pub validate_messages-valid :
    (ms : List AgentMessage)
    → validate_messages ms ≡ none
    → (s : Seen) × (check_messages ms nothing_seen ≡ valid s)
      × (is_empty (missing s.tool_calls s.tool_results) ≡ true)
unfolding validate_messages
validate_messages-valid ms e = elim (Checked-cases (check_messages ms nothing_seen)) [
  | inl (s, q) ↦ let e' = rw (q, validate_messages) at e in (s, q, ground (arith, e'))
  | inr (bad, q) ↦ let e' = rw (q, validate_messages) at e in cc
]

-- A transcript whose IDs are words and that passes validation has message IDs that are neither 0 nor `u64::MAX` and that occur
-- once; every tool-call ID is called at most once, and has exactly as many results as calls.
pub validate_messages_counts :
    (ms : List AgentMessage)
    → WordIds ms
    → validate_messages ms ≡ none
    → All IdInRange ms
      × ((n : ℕ) → count_ids n ms ≤ 1)
      × ((k : Text) → (count_calls k ms ≤ 1) × (count_results k ms ≡ count_calls k ms))
unfolding lookup set_contains
validate_messages_counts ms w e =
    let (s, q, m) = validate_messages-valid ms e in
    (
      (check_messages-ids ms nothing_seen 0 w q).1,
      (λ n. let h = (check_messages-ids ms nothing_seen n w q).0 in ground (arith, h)),
      (λ k. paired s q m k),
    )
  where
    paired :
        (s : Seen)
        → check_messages ms nothing_seen ≡ valid s
        → is_empty (missing s.tool_calls s.tool_results) ≡ true
        → (k : Text) → (count_calls k ms ≤ 1) × (count_results k ms ≡ count_calls k ms)
    paired s q m k =
        let a = check_messages-Adds ms nothing_seen k w q in
        let back = a.results_called (λ h. cc) in
        let c = a.call_counted in
        let r = a.result_counted in
        ground (arith, c, r, back, missing-none s.tool_calls s.tool_results k m)
