-- ===== src/RateLimiter/Tests.antt =====
-- Runs of the limiter of src/electripy/concurrency/rate_limiter.py.
use electripy_ai.Prelude.{
  ℕ, ◌+◌, ◌-◌, ◌*◌, zero, suc, ◌≤◌, ◌<◌, ◌≡◌, subst, sym, refl, some, List, [], ◌∷◌, arith,
}
use electripy_ai.RateLimiter.{
  RateLimiter, or_rate, new_limiter, refill, granted, zero_division, Clock, acquire_rounds, acquire,
}
use electripy_ai.RateLimiter.Bucket.{Monotonic, acquire_all, grants_bounded}
use electripy_ai.RateLimiter.Waits.{grants_in_two_rounds}

-- The world is the time; a pause lasts as many units as tokens are missing, at a rate of at least one.
abbrev clock : Clock ℕ
clock = record { now = λ w. (w, w); sleep = λ needed rate w. w + needed }

monotonic : Monotonic clock (λ w. w)
monotonic = record {
  read = λ w. refl;
  reading = λ w. omega arith;
  sleeping = λ needed rate w. omega arith;
}

abbrev calls : List (ℕ × ℕ)
calls = (2, 3) ∷ (2, 2) ∷ (2, 9) ∷ []

-- Five tokens are granted from a bucket of four, and nine are refused.
grants_run :
    acquire_all clock calls (new_limiter 1 (some 4) 10) 10
    ≡ (5, record { rate = 1; capacity = 4; tokens = 0; last_update = 11 }, 11)
unfolding acquire acquire_rounds refill new_limiter or_rate
grants_run = refl

-- At the rate zero a second call fails.
zero_run :
    (acquire clock 2 3 (record { rate = 0; capacity = 3; tokens = 1; last_update = 0 }) 5).0
    ≡ zero_division
unfolding acquire acquire_rounds refill
zero_run = refl

grants_bounded_example :
    (let (total, l, w') = acquire_all clock calls (new_limiter 1 (some 4) 10) 10 in
      (total ≤ or_rate (some 4) 1 + (l.last_update - 10) * 1)
      × (l.last_update ≤ w')
      × (l.tokens ≤ or_rate (some 4) 1))
grants_bounded_example = grants_bounded clock (λ w. w) monotonic 1 (some 4) calls 10

abbrev short : RateLimiter
short = record { rate = 1; capacity = 4; tokens = 1; last_update = 10 }

long_enough : (needed rate w : ℕ) → 0 < rate → needed ≤ (clock.sleep needed rate w - w) * rate
long_enough needed zero w positive = absurd (omega (arith, positive))
long_enough needed (suc r) w positive =
    let passed : w + needed - w ≡ needed = omega arith in
    subst (λ n. needed ≤ n * suc r) (sym passed) (grind arith)

grants_in_two_rounds_example : (acquire clock 2 3 short 10).0 ≡ granted
grants_in_two_rounds_example =
    grants_in_two_rounds clock (λ w. w) monotonic long_enough 0 3 short 10 (omega arith)
      (omega arith)
