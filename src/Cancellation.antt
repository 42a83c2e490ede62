-- ===== src/Cancellation.antt =====
-- crates/tea-protocol/src/cancellation.rs: a cancellation scope with one thread that waits in
-- `wait_blocking` and one that cancels. A step of a thread ends at its next access to what they share:
-- the flag, the mutex of the reason, or the condition variable. The mutex is held by the waiting thread
-- exactly in `testing` and `deciding`; the cancelling one takes and releases it in one step. A sleeping
-- thread is only woken by a notification.
pub mod Wakes
use pi_agent_core_rs.Prelude.{
  Bool, true, false, not, List, [], ◌∷◌, ◌++◌, Option, none, some, Text, if◌then◌else◌, is_empty,
}

-- Where the waiting thread is.
pub data WaiterAt : Type 0 where
  locking : WaiterAt
  testing : WaiterAt
  deciding : WaiterAt
  asleep : WaiterAt
  woken : WaiterAt
  returned : (reason : Option Text) → WaiterAt

-- Where the cancelling thread is.
pub data CancellerAt : Type 0 where
  starting storing notifying : CancellerAt
  finished : (first : Bool) → CancellerAt

-- `CancellationInner`, with the threads and the reason that is given.
pub record Scope : Type 0 where
  pub cancelled : Bool
  pub reason : Option Text
  pub waiter : WaiterAt
  pub canceller : CancellerAt
  pub given : Text

-- `CancellationSource::new`, and both threads at their calls.
abbrev pub new_scope : Text → Scope
new_scope given = record {
  cancelled = false;
  reason = none;
  waiter = locking;
  canceller = starting;
  given = given;
}

abbrev pub holds_lock : WaiterAt → Bool
holds_lock testing = true
holds_lock deciding = true
holds_lock _ = false

abbrev pub notified : WaiterAt → WaiterAt
notified asleep = woken
notified w = w

waiter_step : WaiterAt → Scope → Scope
waiter_step locking s = record s { waiter = testing }
waiter_step testing s = record s { waiter = if s.cancelled then returned s.reason else deciding }
waiter_step deciding s = record s { waiter = asleep }
waiter_step asleep s = s
waiter_step woken s = record s { waiter = testing }
waiter_step (returned _) s = s

-- `cancel_with_reason`.
canceller_step : CancellerAt → Scope → Scope
canceller_step starting s =
    let next = if is_empty s.given then notifying else storing in
    let set : Scope = record s { cancelled = true; canceller = next } in
    let refused : Scope = record s { canceller = finished false } in
    if s.cancelled then refused else set
canceller_step storing s =
    let stored : Scope = record s { reason = some s.given; canceller = notifying } in
    if holds_lock s.waiter then s else stored
canceller_step notifying s = record s { waiter = notified s.waiter; canceller = finished true }
canceller_step (finished _) s = s

pub data Thread : Type 0 where
  waiting cancelling : Thread

unfoldable pub step : Thread → Scope → Scope
unfolding waiter_step canceller_step
step waiting s = waiter_step s.waiter s
step cancelling s = canceller_step s.canceller s

-- The threads in the order in which they run.
unfoldable pub run : List Thread → Scope → Scope
run [] s = s
run (thread ∷ schedule) s = run schedule (step thread s)
