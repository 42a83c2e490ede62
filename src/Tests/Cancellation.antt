-- ===== src/Tests/Cancellation.antt =====
-- The cancellation scope at concrete schedules.
use pi_agent_core_rs.Prelude.{true, List, [], ◌∷◌, none, Text, codes, ◌≡◌, refl}
use pi_agent_core_rs.Cancellation.{
  asleep, finished, new_scope, Thread, waiting, cancelling, step, run,
}
use pi_agent_core_rs.Cancellation.Wakes.{
  has_returned, has_finished, scope, run-wakes, losing, run_loses,
}

abbrev shutdown : Text
shutdown = codes "shutdown"

-- The flag is set between the test of the waiting thread and its sleep.
abbrev between : List Thread
between = waiting ∷ waiting ∷ cancelling ∷ cancelling ∷ waiting ∷ cancelling ∷ cancelling ∷ []

between_finishes : has_finished (run between (new_scope shutdown)).canceller ≡ true
unfolding run step
between_finishes = refl

run-wakes_example :
    has_returned (step waiting (step waiting (run between (new_scope shutdown)))).waiter ≡ true
run-wakes_example = run-wakes shutdown between refl between_finishes

run_loses_example :
    run between (run losing (new_scope [])) ≡ scope true none asleep (finished true) []
run_loses_example = run_loses between
