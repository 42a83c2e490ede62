-- ===== src/Cancellation/Wakes.antt =====
-- Whether the waiting thread hears of the cancellation.
use pi_agent_core_rs.Prelude.{
  Bool, true, false, not, List, [], ◌∷◌, Option, none, Text, is_empty, ◌≡◌, refl, arith,
}
use pi_agent_core_rs.Cancellation.{
  WaiterAt, locking, testing, deciding, asleep, woken, returned, CancellerAt, starting, storing,
  notifying, finished, Scope, new_scope, Thread, waiting, cancelling, step, run,
}

-- What holds where the given reason is not empty.
abbrev is_heard : Bool → WaiterAt → CancellerAt → Bool
is_heard cancelled w starting = not cancelled
is_heard cancelled w storing = cancelled
is_heard cancelled deciding notifying = false
is_heard cancelled _ notifying = cancelled
is_heard cancelled deciding (finished _) = false
is_heard cancelled asleep (finished _) = false
is_heard cancelled _ (finished _) = cancelled

abbrev pub scope : Bool → Option Text → WaiterAt → CancellerAt → Text → Scope
scope c r w k g = record { cancelled = c; reason = r; waiter = w; canceller = k; given = g }

abbrev IsHeard : Scope → Type 0
IsHeard s = is_heard s.cancelled s.waiter s.canceller ≡ true

waiting-IsHeard :
    (c : Bool) (r : Option Text) (w : WaiterAt) (k : CancellerAt) (g : Text)
    → is_empty g ≡ false
    → is_heard c w k ≡ true
    → IsHeard (step waiting (scope c r w k g))
unfolding step
waiting-IsHeard c r locking starting g n h = ground arith
waiting-IsHeard c r locking storing g n h = ground arith
waiting-IsHeard c r locking notifying g n h = ground arith
waiting-IsHeard c r locking (finished b) g n h = ground arith
waiting-IsHeard c r testing starting g n h = ground arith
waiting-IsHeard c r testing storing g n h = ground arith
waiting-IsHeard c r testing notifying g n h = ground arith
waiting-IsHeard c r testing (finished b) g n h = ground arith
waiting-IsHeard c r deciding starting g n h = ground arith
waiting-IsHeard c r deciding storing g n h = ground arith
waiting-IsHeard c r deciding notifying g n h = ground arith
waiting-IsHeard c r deciding (finished b) g n h = ground arith
waiting-IsHeard c r asleep k g n h = h
waiting-IsHeard c r woken starting g n h = ground arith
waiting-IsHeard c r woken storing g n h = ground arith
waiting-IsHeard c r woken notifying g n h = ground arith
waiting-IsHeard c r woken (finished b) g n h = ground arith
waiting-IsHeard c r (returned x) k g n h = h

cancelling-IsHeard :
    (c : Bool) (r : Option Text) (w : WaiterAt) (k : CancellerAt) (g : Text)
    → is_empty g ≡ false
    → is_heard c w k ≡ true
    → IsHeard (step cancelling (scope c r w k g))
unfolding step
cancelling-IsHeard c r w starting g n h = ground arith
cancelling-IsHeard c r locking storing g n h = ground arith
cancelling-IsHeard c r locking notifying g n h = ground arith
cancelling-IsHeard c r w (finished b) g n h = h
cancelling-IsHeard c r testing storing g n h = ground arith
cancelling-IsHeard c r testing notifying g n h = ground arith
cancelling-IsHeard c r deciding storing g n h = ground arith
cancelling-IsHeard c r deciding notifying g n h = ground arith
cancelling-IsHeard c r asleep storing g n h = ground arith
cancelling-IsHeard c r asleep notifying g n h = ground arith
cancelling-IsHeard c r woken storing g n h = ground arith
cancelling-IsHeard c r woken notifying g n h = ground arith
cancelling-IsHeard c r (returned x) storing g n h = ground arith
cancelling-IsHeard c r (returned x) notifying g n h = ground arith

step-given : (thread : Thread) (s : Scope) → (step thread s).given ≡ s.given
unfolding step
step-given waiting s = ground arith
step-given cancelling s = ground arith

step-IsHeard :
    (thread : Thread) (s : Scope) → is_empty s.given ≡ false → IsHeard s → IsHeard (step thread s)
step-IsHeard waiting s n h = waiting-IsHeard s.cancelled s.reason s.waiter s.canceller s.given n h
step-IsHeard cancelling s n h =
    cancelling-IsHeard s.cancelled s.reason s.waiter s.canceller s.given n h

run-IsHeard :
    (schedule : List Thread) (s : Scope)
    → is_empty s.given ≡ false
    → IsHeard s
    → IsHeard (run schedule s)
unfolding run
run-IsHeard [] s n h = h
run-IsHeard (thread ∷ schedule) s n h =
    run-IsHeard schedule (step thread s) (rw (step-given thread s) n) (step-IsHeard thread s n h)

abbrev pub has_returned : WaiterAt → Bool
has_returned (returned _) = true
has_returned _ = false

abbrev pub has_finished : CancellerAt → Bool
has_finished (finished _) = true
has_finished _ = false

wakes_from :
    (c : Bool) (r : Option Text) (w : WaiterAt) (k : CancellerAt) (g : Text)
    → is_heard c w k ≡ true
    → has_finished k ≡ true
    → has_returned (step waiting (step waiting (scope c r w k g))).waiter ≡ true
unfolding step
wakes_from c r locking (finished b) g h f = ground arith
wakes_from c r testing (finished b) g h f = ground arith
wakes_from c r deciding (finished b) g h f = ground arith
wakes_from c r asleep (finished b) g h f = ground arith
wakes_from c r woken (finished b) g h f = ground arith
wakes_from c r (returned x) (finished b) g h f = refl
wakes_from c r w starting g h f = ground arith
wakes_from c r w storing g h f = ground arith
wakes_from c r w notifying g h f = ground arith

-- With a reason that is not empty no wake-up is lost: in whatever order the two threads have run, once
-- the cancelling one has finished, two steps of the waiting one make it return.
pub run-wakes :
    (reason : Text) (schedule : List Thread)
    → is_empty reason ≡ false
    → has_finished (run schedule (new_scope reason)).canceller ≡ true
    → has_returned (step waiting (step waiting (run schedule (new_scope reason)))).waiter ≡ true
run-wakes reason schedule n f =
    let s = run schedule (new_scope reason) in
    wakes_from s.cancelled s.reason s.waiter s.canceller s.given
      (run-IsHeard schedule (new_scope reason) n refl) f

abbrev is_lost : WaiterAt → CancellerAt → Bool
is_lost asleep (finished _) = true
is_lost _ _ = false

step-lost :
    (thread : Thread) (c : Bool) (r : Option Text) (w : WaiterAt) (k : CancellerAt) (g : Text)
    → is_lost w k ≡ true
    → step thread (scope c r w k g) ≡ scope c r w k g
unfolding step
step-lost waiting c r asleep (finished b) g l = refl
step-lost cancelling c r asleep (finished b) g l = refl
step-lost thread c r w k g l = ground arith

run-lost :
    (schedule : List Thread) (s : Scope) → is_lost s.waiter s.canceller ≡ true → run schedule s ≡ s
unfolding run
run-lost [] s l = refl
run-lost (thread ∷ schedule) s l =
    rw (step-lost thread s.cancelled s.reason s.waiter s.canceller s.given l)
      (run-lost schedule s l)

-- The threads where the wake-up is lost: the flag is set and the notification sent between the test of
-- the waiting thread and its sleep.
abbrev pub losing : List Thread
losing = waiting ∷ waiting ∷ cancelling ∷ cancelling ∷ waiting ∷ []

-- Without a reason the wake-up can be lost: when the cancellation, which then takes no lock, falls
-- between the waiting thread's test of the flag and its sleep, that thread stays asleep in a cancelled
-- scope, however the two threads go on.
pub run_loses :
    (schedule : List Thread)
    → run schedule (run losing (new_scope [])) ≡ scope true none asleep (finished true) []
unfolding run step
run_loses schedule = run-lost schedule (run losing (new_scope [])) refl
