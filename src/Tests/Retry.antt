-- ===== src/Tests/Retry.antt =====
-- retry.rs: two retryable failures and a success under the standard policy.
use pi_agent_core_rs.Prelude.{
  ℕ, suc, ◌*◌, ◌^◌, ◌≤◌, ◌<◌, ◌≡◌, inl, inr, Bool, true, false, List, [], ◌∷◌, min, codes, arith,
  ltb, if◌then◌else◌,
}
use pi_agent_core_rs.Retry.{
  standard, delay_before_retry, Poll, Outcome, ok, err, retry_with_backoff,
}
use pi_agent_core_rs.Retry.Backoff.{delay_before_retry-min}
use pi_agent_core_rs.Retry.Attempts.{Reports, retry_with_backoff-Reports, Passes, is_retryable}

delay_before_retry-min_example : delay_before_retry standard 6 ≡ min (250000000 * 2 ^ 6) 8000000000
delay_before_retry-min_example =
    delay_before_retry-min standard 6 (record { ordered = omega arith; fits = omega arith })

abbrev flaky : ℕ → Outcome ℕ
flaky i = if ltb i 2 then err (codes "busy") true else ok 7

abbrev never : ℕ → Bool
never i = false

-- The clock is seen once too early and then past the longest delay.
abbrev observed : ℕ → List Poll
observed i =
    record { elapsed = 0; cancelled = false }
    ∷ record { elapsed = 8000000000; cancelled = false }
    ∷ []

observed-Passes : (i : ℕ) → Passes (delay_before_retry standard i) (observed i)
observed-Passes i = inr (
    inl (
      rw (delay_before_retry-min standard i (record { ordered = omega arith; fits = omega arith }))
        (omega arith)))

retry_with_backoff-Reports_example :
    Reports standard flaky never observed
      (retry_with_backoff standard flaky never observed).0
      (retry_with_backoff standard flaky never observed).1
    × ((retry_with_backoff standard flaky never observed).1 ≤ 4)
    × ((j : ℕ)
        → suc j < (retry_with_backoff standard flaky never observed).1
        → is_retryable (flaky j) ≡ true)
retry_with_backoff-Reports_example =
    retry_with_backoff-Reports standard flaky never observed observed-Passes
