-- ===== src/HttpResilience/Retry/Delays.antt =====
-- How long a retry waits (src/electripy/concurrency/http_resilience/services.py).
use electripy_ai.Prelude.{ℕ, ◌+◌, ◌-◌, ◌*◌, ◌≤◌, Option, String, arith}
use electripy_ai.HttpResilience.Retry.{
  ResponseData, RetryPolicy, retry_after, capped, calculate_delay,
}

capped-le : (p : RetryPolicy) (attempt : ℕ) (o : Option ℕ) → capped p attempt o ≤ p.max_delay
unfolding capped
capped-le p attempt o = ground arith

mul_mono : (d a b : ℕ) → a ≤ b → d * a ≤ d * b
mul_mono d a b h = grind arith

interval : (d r : ℕ) → d * (100 - r) ≤ d * (100 + r)
interval d r = mul_mono d (100 - r) (100 + r) (omega arith)

stretch : (d m r : ℕ) → d ≤ m → d * (100 + r) ≤ m * (100 + r)
stretch d m r h = grind arith

unstretched : (d m r : ℕ) → d ≤ m → d * 100 ≤ m * (100 + r)
unstretched d m r h = grind arith

-- With a draw that never passes the upper end of its interval, a delay is at most the maximal
-- delay lengthened by the jitter ratio, for every attempt and every last response.
calculate_delay-le :
    (p : RetryPolicy) (uniform : ℕ → ℕ → ℕ) (parse : String → Option ℕ) (attempt : ℕ)
    (last : Option ResponseData)
    → ((low high : ℕ) → low ≤ high → uniform low high ≤ high)
    → calculate_delay p uniform parse attempt last ≤ p.max_delay * (100 + p.jitter_ratio)
unfolding calculate_delay
calculate_delay-le p uniform parse attempt last draws =
    let d = capped p attempt (retry_after p parse last) in
    let r = p.jitter_ratio in
    let bound = capped-le p attempt (retry_after p parse last) in
    ground (
      arith,
      draws (d * (100 - r)) (d * (100 + r)) (interval d r),
      stretch d p.max_delay r bound,
      unstretched d p.max_delay r bound,
    )
