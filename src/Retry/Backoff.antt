-- ===== src/Retry/Backoff.antt =====
-- retry.rs: the delay doubles from the initial one up to the cap.
use pi_agent_core_rs.Prelude.{ℕ, zero, suc, ◌*◌, ◌^◌, ◌≤◌, ◌≡◌, min, arith}
use native.Mathlib.Nat.{pow-suc, one-le-pow}
use pi_agent_core_rs.Retry.{duration_max, RetryPolicy, new, delay_loop, delay_before_retry}

-- A policy whose cap is not below its initial delay and is a `Duration`.
pub record IsCapped (p : RetryPolicy) : Type 0 where
  pub ordered : p.initial_delay ≤ p.max_delay
  pub fits : p.max_delay ≤ duration_max

-- `RetryPolicy::new` raises the cap where it is too low.
pub new-IsCapped :
    (retries initial cap : ℕ)
    → initial ≤ duration_max
    → cap ≤ duration_max
    → IsCapped (new retries initial cap)
unfolding new
new-IsCapped retries initial cap h k = ground arith

doubling : (n delay : ℕ) → delay * 2 ^ suc n ≡ delay * 2 * 2 ^ n
doubling n delay = rw (pow-suc 2 n) (omega arith)

le-doubling : (n d : ℕ) → d ≤ d * 2 ^ n
le-doubling n d = let p = one-le-pow n 2 (omega arith) in grind arith

delay_loop-min :
    (n cap delay : ℕ)
    → delay ≤ cap
    → cap ≤ duration_max
    → delay_loop n cap delay ≡ min (delay * 2 ^ n) cap
unfolding delay_loop
delay_loop-min zero cap delay h k = omega arith
delay_loop-min (suc n) cap delay h k =
    rw (doubling n delay)
      (ground (arith, le-doubling n (delay * 2), delay_loop-min n cap (delay * 2)))

-- Under a policy whose cap is a duration that is not below the initial delay, the wait before retry
-- number `i` is the initial delay doubled `i` times, cut off at the cap; the checked multiplication
-- never changes that.
pub delay_before_retry-min :
    (p : RetryPolicy) (i : ℕ)
    → IsCapped p
    → delay_before_retry p i ≡ min (p.initial_delay * 2 ^ i) p.max_delay
unfolding delay_before_retry
delay_before_retry-min p i v = delay_loop-min i p.max_delay p.initial_delay v.ordered v.fits
