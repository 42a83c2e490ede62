-- ===== src/Retry/Attempts.antt =====
-- retry.rs: how many attempts are made, and what the outcome says of them.
use pi_agent_core_rs.Prelude.{
  ℕ, zero, suc, ◌+◌, ◌≤◌, ◌<◌, ◌≡◌, refl, ◌⊎◌, inl, inr, Bool, true, false, List, [], ◌∷◌, Option,
  none, some, arith, Bool-cases, is_some, leb, leb→le,
}
use native.Mathlib.Decide.{ℕ_discrete}
use pi_agent_core_rs.Retry.{
  RetryPolicy, Poll, Outcome, ok, err, Settled, value, failed, cancelled, still_waiting,
  delay_before_retry, wait_with_cancellation, after_wait, after_attempt, retry_loop,
  retry_with_backoff,
}

-- A list of observations in which the delay passes.
abbrev pub Passes : ℕ → List Poll → Type 0
Passes delay [] = ⊥
Passes delay (p ∷ ps) = (delay ≤ p.elapsed) ⊎ Passes delay ps

pub wait-Passes :
    (delay : ℕ) (ps : List Poll)
    → Passes delay ps
    → is_some (wait_with_cancellation delay ps) ≡ true
unfolding wait_with_cancellation
wait-Passes delay [] h = elim h [ ]
wait-Passes delay (p ∷ ps) (inl h) = ground arith
wait-Passes delay (p ∷ ps) (inr h) = ground (arith, wait-Passes delay ps h)

abbrev pub is_retryable : {T : Type 0} → Outcome T → Bool
is_retryable (ok _) = false
is_retryable (err _ retryable) = retryable

module _ {T : Type 0} (policy : RetryPolicy) (operation : ℕ → Outcome T) (is_cancelled : ℕ → Bool)
    (polls : ℕ → List Poll) where
  -- The wait before retry number `i`.
  abbrev pub waited : ℕ → Option Bool
  waited i = wait_with_cancellation (delay_before_retry policy i) (polls i)

  -- What an outcome of the loop says of the attempts that it made.
  abbrev pub Reports : Settled T → ℕ → Type 0
  Reports (value v) n = (i : ℕ) × (n ≡ suc i) × (operation i ≡ ok v)
  Reports (failed message) n =
      (i : ℕ) × (n ≡ suc i)
      × ((operation i ≡ err message false)
          ⊎ ((operation i ≡ err message true) × (policy.max_retries ≤ i)))
  Reports cancelled n = (is_cancelled n ≡ true) ⊎ ((i : ℕ) × (n ≡ suc i) × (waited i ≡ some false))
  Reports still_waiting n = ⊥

  -- The attempts from `i` on, of which the last but one and those before ended in a retryable error.
  abbrev Sound : ℕ → Settled T × ℕ → Type 0
  Sound i r =
      Reports r.0 r.1
      × (r.1 ≤ suc policy.max_retries)
      × ((j : ℕ) → i ≤ j → suc j < r.1 → is_retryable (operation j) ≡ true)

  Sound-extend :
      (i : ℕ) (r : Settled T × ℕ) → is_retryable (operation i) ≡ true → Sound (suc i) r → Sound i r
  Sound-extend i r e s = (s.0, s.1, λ j l h. earlier j l h)
    where
      earlier : (j : ℕ) → i ≤ j → suc j < r.1 → is_retryable (operation j) ≡ true
      earlier j l h = elim (ℕ_discrete i j) [ yes p ↦ rw (← p) e | no n ↦ s.2 j (omega arith) h ]

  after_wait-Sound :
      (i : ℕ) (w : Option Bool) (next : Settled T × ℕ)
      → i < policy.max_retries
      → is_retryable (operation i) ≡ true
      → waited i ≡ w
      → is_some w ≡ true
      → Sound (suc i) next
      → Sound i (after_wait policy operation is_cancelled polls w next (suc i))
  unfolding after_wait
  after_wait-Sound i none next l e q h s = cc
  after_wait-Sound i (some false) next l e q h s =
      (inr (i, refl, q), omega arith, λ j a b. absurd (omega arith))
  after_wait-Sound i (some true) next l e q h s = Sound-extend i next e s

  after_attempt-Sound :
      (i : ℕ) (o : Outcome T) (next : Settled T × ℕ)
      → i ≤ policy.max_retries
      → operation i ≡ o
      → is_some (waited i) ≡ true
      → (i < policy.max_retries → Sound (suc i) next)
      → Sound i (after_attempt policy operation is_cancelled polls o i next)
  unfolding after_attempt
  after_attempt-Sound i (ok v) next le e w k =
      ((i, refl, e), omega arith, λ j l h. absurd (omega arith))
  after_attempt-Sound i (err message false) next le e w k =
      ((i, refl, inl e), omega arith, λ j l h. absurd (omega arith))
  after_attempt-Sound i (err message true) next le e w k =
      elim (Bool-cases (leb policy.max_retries i)) [
        | inl spent ↦
            rw spent
              ((i, refl, inr (e, leb→le _ _ spent)), omega arith, λ j l h. absurd (omega arith))
        | inr left ↦
            let l : i < policy.max_retries = ground arith in
            rw left (after_wait-Sound i (waited i) next l (rw e) refl w (k l))
      ]

  retry_loop-Sound :
      (fuel i : ℕ)
      → fuel + i ≡ policy.max_retries
      → ((j : ℕ) → is_some (waited j) ≡ true)
      → Sound i (retry_loop policy operation is_cancelled polls fuel i)
  unfolding retry_loop
  retry_loop-Sound zero i q w = elim (Bool-cases (is_cancelled i)) [
    | inl yes' ↦ rw yes' (inl yes', omega arith, λ j l h. absurd (omega arith))
    | inr no' ↦ rw no' (
        after_attempt-Sound i (operation i) (still_waiting, suc i) (omega arith) refl (w i)
          (λ l. absurd (omega arith)))
  ]
  retry_loop-Sound (suc fuel) i q w = elim (Bool-cases (is_cancelled i)) [
    | inl yes' ↦ rw yes' (inl yes', omega arith, λ j l h. absurd (omega arith))
    | inr no' ↦ rw no' (
        after_attempt-Sound i (operation i) _ (omega arith) refl (w i)
          (λ l. retry_loop-Sound fuel (suc i) (omega arith) w))
  ]

  -- If in every wait the clock gets past the delay, the operation returns: with the value of the last
  -- attempt; with the message of the last attempt, whose error was not retryable or had no retry
  -- left; or cancelled, before an attempt or in a wait. There are at most `max_retries + 1` attempts,
  -- and every one before the last ended in a retryable error.
  pub retry_with_backoff-Reports :
      ((i : ℕ) → Passes (delay_before_retry policy i) (polls i))
      → let (settled, attempts) = retry_with_backoff policy operation is_cancelled polls in
        Reports settled attempts
        × (attempts ≤ suc policy.max_retries)
        × ((j : ℕ) → suc j < attempts → is_retryable (operation j) ≡ true)
  unfolding retry_with_backoff
  retry_with_backoff-Reports h =
      let s =
        retry_loop-Sound policy.max_retries 0 (omega arith) (λ j. wait-Passes _ (polls j) (h j)) in
      (s.0, s.1, λ j l. s.2 j (omega arith) l)
