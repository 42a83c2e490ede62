-- ===== src/Retry.antt =====
-- crates/tea-core/src/provider/retry.rs: bounded exponential backoff. A `Duration` is its number of
-- nanoseconds. The clock and the thread's sleep are not the program's: a wait reads them as a list of
-- observations, and an attempt's outcome and the cancellation flag before it are functions of its index.
pub mod Backoff
pub mod Attempts
use pi_agent_core_rs.Prelude.{
  ℕ, zero, suc, ◌+◌, ◌*◌, Bool, true, false, not, ◌||◌, List, [], ◌∷◌, Option, none, some, Text,
  min, ltb, leb, if◌then◌else◌,
}

-- `Duration::MAX`: `u64::MAX` seconds and 999,999,999 nanoseconds.
abbrev pub duration_max : ℕ
duration_max = 18446744073709551615999999999

-- `max_retries` is a `u32`; the delays are at most `duration_max`.
pub record RetryPolicy : Type 0 where
  pub max_retries : ℕ
  pub initial_delay : ℕ
  pub max_delay : ℕ

-- `RetryPolicy::new`.
unfoldable pub new : ℕ → ℕ → ℕ → RetryPolicy
new max_retries initial_delay max_delay = record {
  max_retries = max_retries;
  initial_delay = initial_delay;
  max_delay = if ltb max_delay initial_delay then initial_delay else max_delay;
}

-- `RetryPolicy::standard`: three retries, 250 ms, 8 s.
abbrev pub standard : RetryPolicy
standard = record { max_retries = 3; initial_delay = 250000000; max_delay = 8000000000 }

-- `delay.checked_mul(2).unwrap_or(max_delay)`.
doubled : ℕ → ℕ → ℕ
doubled delay max_delay = if leb (delay * 2) duration_max then delay * 2 else max_delay

-- The loop of `delay_before_retry`, with the rounds left.
delay_loop : ℕ → ℕ → ℕ → ℕ
unfolding doubled
delay_loop zero max_delay delay = min delay max_delay
delay_loop (suc rounds) max_delay delay =
    let rest = delay_loop rounds max_delay (doubled delay max_delay) in
    if leb max_delay (doubled delay max_delay) then max_delay else rest

unfoldable pub delay_before_retry : RetryPolicy → ℕ → ℕ
unfolding delay_loop
delay_before_retry p retry_index = delay_loop retry_index p.max_delay p.initial_delay

-- What one turn of the waiting loop reads: the time since its start, and then the token.
pub record Poll : Type 0 where
  pub elapsed : ℕ
  pub cancelled : Bool

-- `wait_with_cancellation`; `none` if the observations end before the wait does.
unfoldable pub wait_with_cancellation : ℕ → List Poll → Option Bool
wait_with_cancellation delay [] = none
wait_with_cancellation delay (p ∷ ps) =
    let rest = wait_with_cancellation delay ps in
    if ltb p.elapsed delay then if p.cancelled then some false else rest else some (not p.cancelled)

pub data Outcome {ℓ} (T : Type ℓ) : Type ℓ where
  ok : T → Outcome T
  err : (message : Text) (retryable : Bool) → Outcome T

pub data Settled {ℓ} (T : Type ℓ) : Type ℓ where
  value : T → Settled T
  failed : (message : Text) → Settled T
  cancelled : Settled T
  still_waiting : Settled T

module _ {ℓ} {T : Type ℓ} (policy : RetryPolicy) (operation : ℕ → Outcome T)
    (is_cancelled : ℕ → Bool) (polls : ℕ → List Poll) where
  after_wait : Option Bool → Settled T × ℕ → ℕ → Settled T × ℕ
  after_wait none next attempts = (still_waiting, attempts)
  after_wait (some false) next attempts = (cancelled, attempts)
  after_wait (some true) next attempts = next

  after_attempt : Outcome T → ℕ → Settled T × ℕ → Settled T × ℕ
  unfolding after_wait
  after_attempt (ok v) i next = (value v, suc i)
  after_attempt (err message retryable) i next =
      if not retryable || leb policy.max_retries i
      then (failed message, suc i)
      else after_wait (wait_with_cancellation (delay_before_retry policy i) (polls i)) next (suc i)

  -- The loop of `retry_with_backoff` from retry number `i`, with the retries left as fuel, and the
  -- number of attempts that were made. With no fuel left `i` has reached `max_retries`, so that the
  -- continuation is never taken.
  retry_loop : ℕ → ℕ → Settled T × ℕ
  unfolding after_attempt
  retry_loop zero i =
      if is_cancelled i
      then (cancelled, i)
      else after_attempt (operation i) i (still_waiting, suc i)
  retry_loop (suc fuel) i =
      let next = retry_loop fuel (suc i) in
      if is_cancelled i then (cancelled, i) else after_attempt (operation i) i next

  unfoldable pub retry_with_backoff : Settled T × ℕ
  unfolding retry_loop
  retry_with_backoff = retry_loop policy.max_retries 0
