-- ===== src/Queue/Order.antt =====
-- queue.rs: the order of messages and of their sequence numbers.
use mathlib.Core.List.{append-nil, append_assoc}
use pi_agent_core_rs.Prelude.{
  ℕ, suc, ◌+◌, ◌≤◌, ◌<◌, ◌≡◌, refl, List, [], ◌∷◌, ◌++◌, Text, arith, u64_max, sat_add,
}
use pi_agent_core_rs.Queue.{
  QueuedMessage, QueueMode, one_at_a_time, all, MessageQueue, QueueOp, push_op, drain_op, clear_op,
  push, pop_entries, collect, drain, clear, step, run,
}

-- The sequence numbers of a list rise strictly, stay above `lo` and do not pass `hi`.
abbrev pub Rising : ℕ → ℕ → List QueuedMessage → Type 0
Rising lo hi [] = lo ≤ hi
Rising lo hi (m ∷ ms) = (lo < m.sequence) × Rising m.sequence hi ms

-- The entries of a queue carry rising numbers, the last of which is at most `next_sequence`.
abbrev pub IsOrdered : MessageQueue → Type 0
IsOrdered q = Rising 0 q.next_sequence q.entries

Rising-le : (lo hi : ℕ) (ms : List QueuedMessage) → Rising lo hi ms → lo ≤ hi
Rising-le lo hi [] h = h
Rising-le lo hi (m ∷ ms) h = omega (arith, Rising-le m.sequence hi ms h.1)

Rising-lower :
    (lo lo' hi : ℕ) (ms : List QueuedMessage) → lo' ≤ lo → Rising lo hi ms → Rising lo' hi ms
Rising-lower lo lo' hi [] e h = omega arith
Rising-lower lo lo' hi (m ∷ ms) e h = (omega arith, h.1)

Rising-snoc :
    (lo hi : ℕ) (ms : List QueuedMessage) (m : QueuedMessage)
    → hi < m.sequence
    → Rising lo hi ms
    → Rising lo m.sequence (ms ++ m ∷ [])
Rising-snoc lo hi [] m e h = (omega arith, omega arith)
Rising-snoc lo hi (x ∷ ms) m e h = (h.0, Rising-snoc x.sequence hi ms m e h.1)

Rising-append_left :
    (lo hi : ℕ) (xs ys : List QueuedMessage) → Rising lo hi (xs ++ ys) → Rising lo hi xs
Rising-append_left lo hi [] ys h = Rising-le lo hi ys h
Rising-append_left lo hi (x ∷ xs) ys h = (h.0, Rising-append_left x.sequence hi xs ys h.1)

-- How many sequence numbers a history takes.
abbrev pub pushes : List QueueOp → ℕ
pushes [] = 0
pushes (push_op _ ∷ ops) = suc (pushes ops)
pushes (drain_op _ ∷ ops) = pushes ops
pushes (clear_op ∷ ops) = pushes ops

push-Rising :
    (q : MessageQueue) (content : Text) (lo : ℕ) (got : List QueuedMessage)
    → q.next_sequence < u64_max
    → Rising lo q.next_sequence (got ++ q.entries)
    → let q' = (push content q).0 in Rising lo q'.next_sequence (got ++ q'.entries)
unfolding push sat_add
push-Rising q content lo got room h =
    let m : QueuedMessage = record { sequence = sat_add q.next_sequence 1; content = content } in
    rw (← append_assoc) (Rising-snoc lo q.next_sequence (got ++ q.entries) m (omega arith) h)

pop_entries-append :
    (n : ℕ) (es : List QueuedMessage)
    → collect (pop_entries n es).1 ++ (pop_entries n es).0.entries ≡ es
unfolding pop_entries
pop_entries-append n [] = refl
pop_entries-append n (m ∷ ms) = refl

-- What a drain hands over, followed by what it leaves, is what stood in the queue.
pub drain-append :
    (mode : QueueMode) (q : MessageQueue) → (drain mode q).1 ++ (drain mode q).0.entries ≡ q.entries
unfolding drain
drain-append one_at_a_time q = pop_entries-append q.next_sequence q.entries
drain-append all q = append-nil q.entries

pop_entries-next : (n : ℕ) (es : List QueuedMessage) → (pop_entries n es).0.next_sequence ≡ n
unfolding pop_entries
pop_entries-next n [] = refl
pop_entries-next n (m ∷ ms) = refl

pub drain-next :
    (mode : QueueMode) (q : MessageQueue) → (drain mode q).0.next_sequence ≡ q.next_sequence
unfolding drain
drain-next one_at_a_time q = pop_entries-next q.next_sequence q.entries
drain-next all q = refl

drain-Rising :
    (mode : QueueMode) (q : MessageQueue) (lo : ℕ) (got : List QueuedMessage)
    → Rising lo q.next_sequence (got ++ q.entries)
    → let (q', out) = drain mode q in Rising lo q'.next_sequence ((got ++ out) ++ q'.entries)
drain-Rising mode q lo got h = rw (append_assoc, drain-append mode q, drain-next mode q) h

run-Rising_from :
    (ops : List QueueOp) (q : MessageQueue) (lo : ℕ) (got : List QueuedMessage)
    → q.next_sequence + pushes ops ≤ u64_max
    → Rising lo q.next_sequence (got ++ q.entries)
    → let (q', out) = run ops q in Rising lo q'.next_sequence ((got ++ out) ++ q'.entries)
unfolding run step
run-Rising_from [] q lo got room h = rw append-nil h
run-Rising_from (push_op content ∷ ops) q lo got room h =
    run-Rising_from ops (push content q).0 lo got (unfold push sat_add in omega arith)
      (push-Rising q content lo got (omega arith) h)
run-Rising_from (drain_op mode ∷ ops) q lo got room h =
    let (q', out) = drain mode q in
    rw (← append_assoc) (
      run-Rising_from ops q' lo (got ++ out) (rw (drain-next mode q) room)
        (drain-Rising mode q lo got h))
run-Rising_from (clear_op ∷ ops) q lo got room h =
    run-Rising_from ops (clear q) lo got (unfold clear in room)
      (unfold clear in rw append-nil (Rising-append_left lo q.next_sequence got q.entries h))

-- As long as the counter does not saturate, over any history of pushes, drains in either mode and
-- clears on an ordered queue, the messages received, in the order received, followed by those still
-- queued, carry strictly rising sequence numbers: none is delivered twice or out of order.
pub run-Rising :
    (ops : List QueueOp) (q : MessageQueue)
    → q.next_sequence + pushes ops ≤ u64_max
    → IsOrdered q
    → let (q', out) = run ops q in Rising 0 q'.next_sequence (out ++ q'.entries)
run-Rising ops q room h = run-Rising_from ops q 0 [] room h
