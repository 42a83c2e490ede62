-- ===== src/Queue/Fifo.antt =====
-- queue.rs: a queue without `clear` is first-in-first-out, and the two drain modes agree.
use mathlib.Core.List.{append-nil, append_assoc}
use pi_agent_core_rs.Prelude.{
  ℕ, zero, suc, ◌≤◌, ◌≡◌, refl, List, [], ◌∷◌, ◌++◌, Text, arith, sat_add, length,
}
use pi_agent_core_rs.Queue.{
  QueuedMessage, all, MessageQueue, QueueOp, push_op, drain_op, clear_op, push, drain, step, run,
  drain_times,
}
use pi_agent_core_rs.Queue.Order.{drain-append, drain-next}

-- The texts that a history pushes, in order.
abbrev pub pushed : List QueueOp → List Text
pushed [] = []
pushed (push_op content ∷ ops) = content ∷ pushed ops
pushed (drain_op _ ∷ ops) = pushed ops
pushed (clear_op ∷ ops) = pushed ops

-- The messages that these texts become after the counter stood at `n`.
abbrev pub numbered : ℕ → List Text → List QueuedMessage
numbered n [] = []
numbered n (t ∷ ts) = record { sequence = sat_add n 1; content = t } ∷ numbered (sat_add n 1) ts

-- A history with no `clear` in it.
abbrev pub KeepsAll : List QueueOp → Type 0
KeepsAll [] = Unit {0}
KeepsAll (push_op _ ∷ ops) = KeepsAll ops
KeepsAll (drain_op _ ∷ ops) = KeepsAll ops
KeepsAll (clear_op ∷ ops) = ⊥

-- Over a history without `clear`, what is received and what is still queued are together exactly
-- the initial entries followed by the pushed texts under consecutive numbers, in that order.
pub run_fifo :
    (ops : List QueueOp) (q : MessageQueue)
    → KeepsAll ops
    → let (q', out) = run ops q in
      out ++ q'.entries ≡ q.entries ++ numbered q.next_sequence (pushed ops)
unfolding run step
run_fifo [] q k = rw append-nil
run_fifo (push_op content ∷ ops) q k =
    rw (run_fifo ops (push content q).0 k) (unfold push in append_assoc q.entries _ _)
run_fifo (drain_op mode ∷ ops) q k =
    let (q', out) = drain mode q in
    rw (append_assoc, run_fifo ops q' k, drain-next mode q, ← append_assoc, drain-append mode q)
      refl
run_fifo (clear_op ∷ ops) q k = absurd k

abbrev queue_of : ℕ → List QueuedMessage → MessageQueue
queue_of n es = record { next_sequence = n; entries = es }

drain_times_from :
    (n k : ℕ) (es : List QueuedMessage)
    → length es ≤ n
    → drain_times n (queue_of k es) ≡ (queue_of k [], es)
unfolding drain_times drain
drain_times_from zero k [] h = refl
drain_times_from zero k (m ∷ ms) h = absurd (omega arith)
drain_times_from (suc n) k [] h = rw (drain_times_from n k [] (omega arith))
drain_times_from (suc n) k (m ∷ ms) h = rw (drain_times_from n k ms (omega arith))

-- Draining one message at a time, at least as often as there are messages, hands over the same
-- messages in the same order, and leaves the same queue, as one drain of all.
pub drain_times-all :
    (n : ℕ) (q : MessageQueue) → length q.entries ≤ n → drain_times n q ≡ drain all q
unfolding drain
drain_times-all n q h = drain_times_from n q.next_sequence q.entries h
