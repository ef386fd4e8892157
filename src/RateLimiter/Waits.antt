-- ===== src/RateLimiter/Waits.antt =====
-- That the token bucket of src/electripy/concurrency/rate_limiter.py grants in the end.
use electripy_ai.Prelude.{
  ℕ, suc, ◌-◌, ◌*◌, ◌≤◌, ◌<◌, ◌≡◌, refl, ltb, leb, ◌==◌, by_cases, arith, le→leb,
}
use electripy_ai.RateLimiter.{
  RateLimiter, refill, Acquired, granted, Clock, acquire_rounds, acquire,
}
use electripy_ai.RateLimiter.Bucket.{Monotonic}

module _ {W : Type 0} (clock : Clock W) (time : W → ℕ) (monotonic : Monotonic clock time)
    (pauses : (needed rate : ℕ) (w : W)
      → 0 < rate
      → needed ≤ (time (clock.sleep needed rate w) - time w) * rate) where
  mul-le : (a b c : ℕ) → a ≤ b → a * c ≤ b * c
  mul-le a b c h = grind (arith, h)

  -- The bucket after a pause for what was missing.
  refilled_enough :
      (amount : ℕ) (l : RateLimiter) (w1 : W)
      → 0 < l.rate
      → amount ≤ l.capacity
      → l.last_update ≡ time w1
      → (let (t, _) = clock.now (clock.sleep (amount - l.tokens) l.rate w1) in
          amount ≤ (refill t l).tokens)
  unfolding refill
  refilled_enough amount l w1 positive fits e =
      let w2 = clock.sleep (amount - l.tokens) l.rate w1 in
      let t = (clock.now w2).0 in
      let passed : time w2 - time w1 ≤ t - l.last_update =
        omega (arith, monotonic.read w2, monotonic.reading w2, e) in
      omega (
        arith,
        fits,
        pauses (amount - l.tokens) l.rate w1 positive,
        mul-le (time w2 - time w1) (t - l.last_update) l.rate passed,
      )

  second_round :
      (more amount : ℕ) (l : RateLimiter) (w1 : W)
      → 0 < l.rate
      → amount ≤ l.capacity
      → l.last_update ≡ time w1
      → (acquire_rounds clock (suc more) amount l (clock.sleep (amount - l.tokens) l.rate w1)).0
        ≡ granted
  unfolding acquire_rounds
  second_round more amount l w1 positive fits e = ground (
    arith,
    le→leb amount (refill (clock.now (clock.sleep (amount - l.tokens) l.rate w1)).0 l).tokens
        (refilled_enough amount l w1 positive fits e),
  )

  IsGranted : Acquired × RateLimiter × W → Type 0
  IsGranted result = result.0 ≡ granted

  two_rounds :
      (more amount : ℕ) (l : RateLimiter) (w : W)
      → 0 < l.rate
      → amount ≤ l.capacity
      → IsGranted (acquire_rounds clock (suc (suc more)) amount l w)
  unfolding acquire_rounds refill IsGranted
  two_rounds more amount l w positive fits =
      let (t, w1) = clock.now w in
      let l1 = refill t l in
      by_cases IsGranted (leb amount l1.tokens) (λ _. refl)
        (λ _.
          by_cases IsGranted (l1.rate == 0) (λ none. absurd (ground (arith, none, positive)))
            (λ _. second_round more amount l1 w1 positive fits (monotonic.read w)))

  -- With a clock that never goes back, and pauses at a rate that is not zero long enough for what is missing
  -- to come in: an amount within the capacity is granted after one pause at most, at such a rate.
  pub grants_in_two_rounds :
      (more amount : ℕ) (l : RateLimiter) (w : W)
      → 0 < l.rate
      → amount ≤ l.capacity
      → (acquire clock (suc (suc more)) amount l w).0 ≡ granted
  unfolding acquire IsGranted
  grants_in_two_rounds more amount l w positive fits =
      by_cases IsGranted (ltb l.capacity amount) (λ over. absurd (ground (arith, over, fits)))
        (λ _. two_rounds more amount l w positive fits)
