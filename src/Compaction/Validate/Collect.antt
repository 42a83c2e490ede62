-- ===== src/Compaction/Validate/Collect.antt =====
-- compaction.rs: how the collections of the loop count the calls and the results of a transcript.
use pi_agent_core_rs.Prelude.{
  ℕ, ◌+◌, ◌≡◌, refl, ◌⊎◌, inl, inr, Bool, true, false, List, [], ◌∷◌, Option, none, some, Text,
  arith, text_eq, text_eq_iff, ◌==◌, is_some, Option-cases,
}
use pi_agent_core_rs.Prelude.Sets.{set_contains, set_contains-insert, lookup, lookup-insert}
use pi_agent_core_rs.State.Types.{
  AgentToolCall, ToolResultMessage, AgentMessage, user, assistant, tool_result, message_id,
}
use pi_agent_core_rs.Compaction.Validate.{
  InvalidReplacement, Checked, valid, invalid, Seen, number_in, add_call, add_calls, add_result,
  check_content,
}

abbrev pub one_if : Bool → ℕ
one_if true = 1
one_if false = 0

-- How many of the calls have the ID `k`.
abbrev pub count_in : Text → List AgentToolCall → ℕ
count_in k [] = 0
count_in k (c ∷ cs) = one_if (text_eq c.id k) + count_in k cs

abbrev pub calls_of : Text → AgentMessage → ℕ
calls_of k (user _ _) = 0
calls_of k (assistant m) = count_in k m.tool_calls
calls_of k (tool_result _) = 0

abbrev pub results_of : Text → AgentMessage → ℕ
results_of k (user _ _) = 0
results_of k (assistant _) = 0
results_of k (tool_result m) = one_if (text_eq m.tool_call_id k)

-- How often a transcript calls a tool under the ID `k`, holds a result for it, and uses the message
-- ID `n`.
abbrev pub count_calls : Text → List AgentMessage → ℕ
count_calls k [] = 0
count_calls k (m ∷ ms) = calls_of k m + count_calls k ms

abbrev pub count_results : Text → List AgentMessage → ℕ
count_results k [] = 0
count_results k (m ∷ ms) = results_of k m + count_results k ms

abbrev pub count_ids : ℕ → List AgentMessage → ℕ
count_ids n [] = 0
count_ids n (m ∷ ms) = one_if (message_id m == n) + count_ids n ms

pub Checked-cases {ℓ} :
    {A : Type ℓ} (r : Checked A)
    → ((a : A) × (r ≡ valid a)) ⊎ ((e : InvalidReplacement) × (r ≡ invalid e))
Checked-cases (valid a) = inl (a, refl)
Checked-cases (invalid e) = inr (e, refl)

add_call-count :
    (c : AgentToolCall) (calls : List (Text × Text)) {calls' : List (Text × Text)} (k : Text)
    → add_call c (lookup c.id calls) calls ≡ valid calls'
    → one_if (is_some (lookup k calls)) + one_if (text_eq c.id k)
      ≡ one_if (is_some (lookup k calls'))
unfolding add_call
add_call-count c calls k e = elim (Option-cases (lookup c.id calls)) [
  | inl q ↦ ground (arith, q, lookup-insert c.id k c.name calls, text_eq_iff c.id k)
  | inr (n, q) ↦ ground (arith, q)
]

add_calls-count :
    (cs : List AgentToolCall) (calls : List (Text × Text)) {calls' : List (Text × Text)} (k : Text)
    → add_calls cs calls ≡ valid calls'
    → one_if (is_some (lookup k calls)) + count_in k cs ≡ one_if (is_some (lookup k calls'))
unfolding add_calls
add_calls-count [] calls k e = ground arith
add_calls-count (c ∷ cs) calls k e = elim (Checked-cases (add_call c (lookup c.id calls) calls)) [
  | inl (next, q) ↦
      let e' = rw (q, add_calls) at e in
      omega (arith, add_call-count c calls k q, add_calls-count cs next k e')
  | inr (bad, q) ↦ let e' = rw (q, add_calls) at e in cc
]

-- The numbers of calls and of results with the ID `k` that the collections stand for.
abbrev pub calls_seen : Text → Seen → ℕ
calls_seen k s = one_if (is_some (lookup k s.tool_calls))

abbrev pub results_seen : Text → Seen → ℕ
results_seen k s = one_if (set_contains k s.tool_results)

abbrev pub ids_seen : ℕ → Seen → ℕ
ids_seen n s = one_if (number_in n s.message_ids)

-- What one message, or a list of them, adds to the collections.
pub record Adds (k : Text) (calls results : ℕ) (s s' : Seen) : Type 0 where
  pub call_counted : calls_seen k s + calls ≡ calls_seen k s'
  pub result_counted : results_seen k s + results ≡ results_seen k s'
  pub results_called :
      (set_contains k s.tool_results ≡ true → is_some (lookup k s.tool_calls) ≡ true)
      → set_contains k s'.tool_results ≡ true
      → is_some (lookup k s'.tool_calls) ≡ true

add_result-count :
    (m : ToolResultMessage) (found : Option Text) (results : List Text) {results' : List Text}
    (k : Text)
    → add_result m found results ≡ valid results'
    → (one_if (set_contains k results) + one_if (text_eq m.tool_call_id k)
        ≡ one_if (set_contains k results'))
      × (is_some found ≡ true)
unfolding add_result
add_result-count m none results k e = cc
add_result-count m (some name) results k e =
    ground (arith, set_contains-insert m.tool_call_id k results, text_eq_iff m.tool_call_id k)

pub check_content-Adds :
    (m : AgentMessage) (s : Seen) {s' : Seen} (k : Text)
    → check_content m s ≡ valid s'
    → Adds k (calls_of k m) (results_of k m) s s'
unfolding check_content
check_content-Adds (user id content) s k e = ground arith
check_content-Adds (assistant m) s k e =
    elim (Checked-cases (add_calls m.tool_calls s.tool_calls)) [
      | inl (calls, q) ↦
          let e' = rw (q, check_content) at e in
          let c = add_calls-count m.tool_calls s.tool_calls k q in ground (arith, e', c)
      | inr (bad, q) ↦ let e' = rw (q, check_content) at e in cc
    ]
check_content-Adds (tool_result m) s k e =
    elim (Checked-cases (add_result m (lookup m.tool_call_id s.tool_calls) s.tool_results)) [
      | inl (results, q) ↦
          let e' = rw (q, check_content) at e in
          let c = add_result-count m (lookup m.tool_call_id s.tool_calls) s.tool_results k q in
          ground (arith, e', c, text_eq_iff m.tool_call_id k)
      | inr (bad, q) ↦ let e' = rw (q, check_content) at e in cc
    ]
