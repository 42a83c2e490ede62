-- ===== src/Agent/MessageIds.antt =====
-- lifecycle.rs: the IDs of the messages of a transcript stay below the next one and do not repeat.
use pi_agent_core_rs.Prelude.{
  ℕ, ◌+◌, ◌≤◌, ◌<◌, ◌≡◌, refl, inl, inr, Bool, List, [], ◌∷◌, ◌++◌, none, some, Text, arith,
  sat_add, u64_max, ◌==◌, length, All, Option-cases, Bool-cases, get_elem?,
}
use mathlib.Core.List.{append_assoc, append-nil}
use pi_agent_core_rs.State.Types.{AgentMessage, user, message_id}
use pi_agent_core_rs.Compaction.Validate.{validate_messages}
use pi_agent_core_rs.Compaction.Validate.Collect.{one_if, count_ids}
use pi_agent_core_rs.Compaction.Validate.Sound.{IdInRange, WordIds, validate_messages_counts}
use pi_agent_core_rs.Agent.State.{
  CoreError, AgentState, allocate_message_id, largest_next, or_one, replace_messages, System,
}
use pi_agent_core_rs.Agent.Start.{
  owner, allocate_users, start_run, runs_as, commit_replacement, commit_compaction,
}
use pi_agent_core_rs.Agent.Control.{while_idle, restore_idle, restore_messages}

-- Every ID of the messages is below the next one, which is not 0, and occurs once.
pub record AreFresh (next : ℕ) (ms : List AgentMessage) : Type 0 where
  pub positive : 0 < next
  pub below : All (λ m. message_id m < next) ms
  pub once : (n : ℕ) → count_ids n ms ≤ 1

abbrev pub HasFreshIds : AgentState → Type 0
HasFreshIds s = AreFresh s.next_message_id s.messages

All-raise :
    (a b : ℕ) (ms : List AgentMessage)
    → a ≤ b
    → All (λ m. message_id m < a) ms
    → All (λ m. message_id m < b) ms
All-raise a b [] h all = tt
All-raise a b (m ∷ ms) h all = (omega (arith, all.0), All-raise a b ms h all.1)

All-snoc :
    (b : ℕ) (ms : List AgentMessage) (m : AgentMessage)
    → All (λ m. message_id m < b) ms
    → message_id m < b
    → All (λ m. message_id m < b) (ms ++ m ∷ [])
All-snoc b [] m all h = (h, tt)
All-snoc b (x ∷ ms) m all h = (all.0, All-snoc b ms m all.1 h)

count_ids-snoc :
    (n : ℕ) (ms : List AgentMessage) (m : AgentMessage)
    → count_ids n (ms ++ m ∷ []) ≡ count_ids n ms + one_if (message_id m == n)
count_ids-snoc n [] m = omega arith
count_ids-snoc n (x ∷ ms) m = omega (arith, count_ids-snoc n ms m)

-- An ID that is not below the bound does not occur.
count_ids-above :
    (n b : ℕ) (ms : List AgentMessage) → All (λ m. message_id m < b) ms → b ≤ n → count_ids n ms ≡ 0
count_ids-above n b [] all h = refl
count_ids-above n b (m ∷ ms) all h = ground (arith, all.0, count_ids-above n b ms all.1 h)

snoc-AreFresh :
    (next : ℕ) (ms : List AgentMessage) (content : Text)
    → next < u64_max
    → AreFresh next ms
    → AreFresh (sat_add next 1) (ms ++ user next content ∷ [])
unfolding sat_add
snoc-AreFresh next ms content room f = record {
  positive = omega arith;
  below =
      All-snoc _ ms (user next content) (All-raise next _ ms (omega arith) f.below) (omega arith);
  once = λ n. once n;
}
  where
    once : (n : ℕ) → count_ids n (ms ++ user next content ∷ []) ≤ 1
    once n =
        let split = count_ids-snoc n ms (user next content) in
        ground (arith, split, f.once n, count_ids-above n next ms f.below)

allocate_users-AreFresh :
    (contents : List Text) (s : AgentState) (ms : List AgentMessage)
    → s.next_message_id + length contents ≤ u64_max
    → AreFresh s.next_message_id ms
    → let (s', new) = allocate_users contents s in AreFresh s'.next_message_id (ms ++ new)
unfolding allocate_users allocate_message_id
allocate_users-AreFresh [] s ms room f = rw append-nil f
allocate_users-AreFresh (content ∷ contents) s ms room f =
    let (s', id) = allocate_message_id s in
    let f' =
      allocate_users-AreFresh contents s' (ms ++ user id content ∷ [])
        (unfold sat_add in omega arith)
        (snoc-AreFresh s.next_message_id ms content (omega arith) f) in
    rw (append_assoc ms (user id content ∷ []) (allocate_users contents s').1) at f'

allocate_users-messages :
    (contents : List Text) (s : AgentState) → (allocate_users contents s).0.messages ≡ s.messages
unfolding allocate_users allocate_message_id
allocate_users-messages [] s = refl
allocate_users-messages (content ∷ contents) s = allocate_users-messages contents _

-- A run is started with messages whose IDs are new, as long as the counter does not saturate: the IDs
-- of the transcript stay below the next one and distinct, whether the run starts or is refused.
pub start_run-HasFreshIds :
    (contents : List Text) (skip : Bool) (s : System)
    → s.agent.state.next_message_id + length contents ≤ u64_max
    → HasFreshIds s.agent.state
    → HasFreshIds (start_run contents skip s).0.agent.state
unfolding start_run
start_run-HasFreshIds contents skip s room f = elim (Option-cases (owner s.agent.state.phase)) [
  | inl e ↦
      rw (e, start_run)
        (rw (allocate_users-messages contents s.agent.state)
          (allocate_users-AreFresh contents s.agent.state s.agent.state.messages room f))
  | inr (n, e) ↦ rw (e, start_run) f
]

largest_next-below :
    (ms : List AgentMessage) (next : ℕ)
    → All IdInRange ms
    → or_one (largest_next ms) ≤ next
    → All (λ m. message_id m < next) ms
unfolding largest_next or_one
largest_next-below [] next valid h = tt
largest_next-below (m ∷ ms) next valid h = elim (Option-cases (largest_next ms)) [
  | inl e ↦
      let h' = rw (e, largest_next, or_one) at h in
      (unfold sat_add in ground (arith, valid.0, h'), largest_next-none ms next e)
  | inr (n, e) ↦
      let h' = rw (e, largest_next, or_one) at h in
      (
        unfold sat_add in ground (arith, valid.0, h'),
        largest_next-below ms next valid.1 (rw (e, or_one) (omega (arith, h'))),
      )
]
  where
    largest_next-none :
        (ms : List AgentMessage) (next : ℕ)
        → largest_next ms ≡ none
        → All (λ m. message_id m < next) ms
    largest_next-none [] next e = tt
    largest_next-none (x ∷ xs) next e = elim (Option-cases (largest_next xs)) [
      | inl q ↦ let e' = rw (q, largest_next) at e in cc
      | inr (n, q) ↦ let e' = rw (q, largest_next) at e in cc
    ]

replace_messages-HasFreshIds :
    (ms : List AgentMessage) (s : AgentState)
    → WordIds ms
    → validate_messages ms ≡ none
    → 0 < s.next_message_id
    → HasFreshIds (replace_messages ms s)
unfolding replace_messages
replace_messages-HasFreshIds ms s w v positive =
    let (range, once, answered) = validate_messages_counts ms w v in
    record {
      positive = omega arith;
      below = largest_next-below ms _ range (omega arith);
      once = once;
    }

restore_idle-HasFreshIds :
    (ms : List AgentMessage) (s : System)
    → WordIds ms
    → HasFreshIds s.agent.state
    → HasFreshIds (restore_idle ms s).0.agent.state
unfolding restore_idle
restore_idle-HasFreshIds ms s w f = elim (Option-cases (validate_messages ms)) [
  | inl e ↦ rw (e, restore_idle) (replace_messages-HasFreshIds ms s.agent.state w e f.positive)
  | inr (bad, e) ↦ rw (e, restore_idle) f
]

restore_messages-HasFreshIds :
    (ms : List AgentMessage) (s : System)
    → WordIds ms
    → HasFreshIds s.agent.state
    → HasFreshIds (restore_messages ms s).0.agent.state
unfolding restore_messages while_idle
restore_messages-HasFreshIds ms s w f = elim (Option-cases (owner s.agent.state.phase)) [
  | inl e ↦ rw (e, restore_messages, while_idle) (restore_idle-HasFreshIds ms s w f)
  | inr (n, e) ↦ rw (e, restore_messages, while_idle) f
]

commit_compaction-HasFreshIds :
    (ms : List AgentMessage) (h : ℕ) (s : System)
    → WordIds ms
    → HasFreshIds s.agent.state
    → HasFreshIds (commit_compaction ms h s).0.agent.state
unfolding commit_compaction commit_replacement
commit_compaction-HasFreshIds ms h s w f = elim (Option-cases (validate_messages ms)) [
  | inr (bad, v) ↦ rw (v, commit_compaction) f
  | inl v ↦ elim (Option-cases (get_elem? s.runs h)) [
    | inl e ↦ rw (v, commit_compaction, e, commit_replacement) f
    | inr (r, e) ↦ elim (Bool-cases r.is_cancelled) [
      | inl gone ↦ rw (v, commit_compaction, e, gone, commit_replacement) f
      | inr kept ↦ elim (Bool-cases (runs_as r.state.id s.agent.state.phase)) [
        | inl own ↦
            rw (v, commit_compaction, e, kept, own, commit_replacement)
              (replace_messages-HasFreshIds ms s.agent.state w v f.positive)
        | inr other ↦ rw (v, commit_compaction, e, kept, other, commit_replacement) f
      ]
    ]
  ]
]

-- Whatever messages a host restores or a compactor proposes, with IDs that are words, the IDs of the transcript are afterwards
-- below the next one and distinct, if they were before.
pub replacement-HasFreshIds :
    (ms : List AgentMessage) (h : ℕ) (s : System)
    → WordIds ms
    → HasFreshIds s.agent.state
    → HasFreshIds (restore_messages ms s).0.agent.state
      × HasFreshIds (commit_compaction ms h s).0.agent.state
replacement-HasFreshIds ms h s w f =
    (restore_messages-HasFreshIds ms s w f, commit_compaction-HasFreshIds ms h s w f)

-- A restoration that fails changes nothing.
restore_messages_error_unchanged :
    (ms : List AgentMessage) (s : System) {e : CoreError}
    → (restore_messages ms s).1 ≡ some e
    → (restore_messages ms s).0 ≡ s
unfolding restore_messages while_idle restore_idle
restore_messages_error_unchanged ms s x = ground arith

-- A commit of a compaction that fails, because the replacement is not valid, the run was cancelled or
-- no longer owns the agent, changes nothing.
commit_compaction_error_unchanged :
    (ms : List AgentMessage) (h : ℕ) (s : System) {e : CoreError}
    → (commit_compaction ms h s).1 ≡ some e
    → (commit_compaction ms h s).0 ≡ s
unfolding commit_compaction commit_replacement
commit_compaction_error_unchanged ms h s x = ground arith
