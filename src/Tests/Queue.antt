-- ===== src/Tests/Queue.antt =====
-- queue.rs on a short history.
use pi_agent_core_rs.Prelude.{◌≡◌, List, [], ◌∷◌, ◌++◌, codes, arith}
use pi_agent_core_rs.Queue.{
  one_at_a_time, all, MessageQueue, empty_queue, QueueOp, push_op, drain_op, clear_op, run,
}
use pi_agent_core_rs.Queue.Order.{Rising, run-Rising}
use pi_agent_core_rs.Queue.Fifo.{numbered, run_fifo}

abbrev history : List QueueOp
history =
    push_op (codes "a") ∷ push_op (codes "b") ∷ drain_op one_at_a_time ∷ push_op (codes "c") ∷ []

abbrev cleared : List QueueOp
cleared = history ++ (clear_op ∷ push_op (codes "d") ∷ drain_op all ∷ [])

abbrev after : MessageQueue
after = (run history empty_queue).0

run-Rising_example :
    Rising 0
      (run cleared empty_queue).0.next_sequence
      ((run cleared empty_queue).1 ++ (run cleared empty_queue).0.entries)
run-Rising_example = run-Rising cleared empty_queue (omega arith) (omega arith)

run_fifo_example :
    (run history empty_queue).1 ++ (run history empty_queue).0.entries
    ≡ numbered 0 (codes "a" ∷ codes "b" ∷ codes "c" ∷ [])
run_fifo_example = run_fifo history empty_queue tt
