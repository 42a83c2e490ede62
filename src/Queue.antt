-- ===== src/Queue.antt =====
-- crates/tea-core/src/queue.rs: the steering and follow-up queues of an agent. A method that takes
-- `&mut self` returns the new queue, and its result beside it.
pub mod Order
pub mod Fifo
use pi_agent_core_rs.Prelude.{
  ℕ, Bool, List, [], ◌∷◌, ◌++◌, Option, none, some, Text, sat_add, length, is_empty,
}

pub record QueuedMessage : Type 0 where
  pub sequence : ℕ
  pub content : Text

pub data QueueMode : Type 0 where
  one_at_a_time all : QueueMode

pub record MessageQueue : Type 0 where
  pub next_sequence : ℕ
  pub entries : List QueuedMessage

-- `MessageQueue::default()`.
abbrev pub empty_queue : MessageQueue
empty_queue = record { next_sequence = 0; entries = [] }

-- The sequence of the message is the second result.
unfoldable pub push : Text → MessageQueue → MessageQueue × ℕ
push content q =
    let sequence = sat_add q.next_sequence 1 in
    let message : QueuedMessage = record { sequence = sequence; content = content } in
    (record { next_sequence = sequence; entries = q.entries ++ message ∷ [] }, sequence)

pop_entries : ℕ → List QueuedMessage → MessageQueue × Option QueuedMessage
pop_entries n [] = (record { next_sequence = n; entries = [] }, none)
pop_entries n (m ∷ ms) = (record { next_sequence = n; entries = ms }, some m)

unfoldable pub pop : MessageQueue → MessageQueue × Option QueuedMessage
unfolding pop_entries
pop q = pop_entries q.next_sequence q.entries

-- `Option::into_iter().collect()`.
abbrev pub collect : Option QueuedMessage → List QueuedMessage
collect none = []
collect (some m) = m ∷ []

unfoldable pub drain : QueueMode → MessageQueue → MessageQueue × List QueuedMessage
unfolding pop
drain one_at_a_time q = let (rest, m) = pop q in (rest, collect m)
drain all q = (record q { entries = [] }, q.entries)

unfoldable pub clear : MessageQueue → MessageQueue
clear q = record q { entries = [] }

-- `SteeringQueue::is_empty` and `FollowUpQueue::is_empty`.
abbrev pub queue_is_empty : MessageQueue → Bool
queue_is_empty q = is_empty q.entries

-- `SteeringQueue::len` and `FollowUpQueue::len`.
abbrev pub queue_len : MessageQueue → ℕ
queue_len q = length q.entries

pub record AgentQueues : Type 0 where
  pub steering : MessageQueue
  pub follow_up : MessageQueue

-- `AgentQueues::default()`.
abbrev pub empty_queues : AgentQueues
empty_queues = record { steering = empty_queue; follow_up = empty_queue }

-- `AgentQueues::clear`.
unfoldable pub clear_queues : AgentQueues → AgentQueues
unfolding clear
clear_queues q = record { steering = clear q.steering; follow_up = clear q.follow_up }

-- An operation of a client on one queue, and what the client receives from it.
pub data QueueOp : Type 0 where
  push_op : Text → QueueOp
  drain_op : QueueMode → QueueOp
  clear_op : QueueOp

unfoldable pub step : QueueOp → MessageQueue → MessageQueue × List QueuedMessage
unfolding push drain clear
step (push_op content) q = ((push content q).0, [])
step (drain_op mode) q = drain mode q
step clear_op q = (clear q, [])

-- A history of operations, with all that was received, in order.
unfoldable pub run : List QueueOp → MessageQueue → MessageQueue × List QueuedMessage
run [] q = (q, [])
run (op ∷ ops) q = let (q', out) = step op q in let (q'', rest) = run ops q' in (q'', out ++ rest)

-- `n` drains with `QueueMode::OneAtATime`, as successive eligible wait points make them.
unfoldable pub drain_times : ℕ → MessageQueue → MessageQueue × List QueuedMessage
drain_times ℕ.zero q = (q, [])
drain_times (ℕ.suc n) q =
    let (q', out) = drain one_at_a_time q in
    let (q'', rest) = drain_times n q' in (q'', out ++ rest)
