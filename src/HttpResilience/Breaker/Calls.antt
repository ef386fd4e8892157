-- ===== src/HttpResilience/Breaker/Calls.antt =====
-- What single calls do to a closed breaker, and to an open one before its deadline
-- (src/electripy/concurrency/http_resilience/circuit_breaker.py).
use electripy_ai.Prelude.{ℕ, ◌+◌, ◌<◌, ◌≡◌, true, false, arith}
use electripy_ai.HttpResilience.Breaker.{
  closed, open_, CircuitBreaker, update_state_if_needed, before_call, after_call,
}

pub before_call_closed :
    (now : ℕ) (b : CircuitBreaker) → b.state ≡ closed → before_call now b ≡ (true, b)
unfolding before_call update_state_if_needed
before_call_closed now b s = ground arith

pub after_call_fails :
    (now later : ℕ) (b : CircuitBreaker)
    → b.state ≡ closed
    → b.consecutive_failures + 1 < b.config.failure_threshold
    → after_call now later false b ≡ record b { consecutive_failures = b.consecutive_failures + 1 }
unfolding after_call update_state_if_needed
after_call_fails now later b s lt = ground arith

pub before_call_open :
    (now : ℕ) (b : CircuitBreaker)
    → b.state ≡ open_
    → now < b.last_state_change + b.config.recovery_timeout
    → before_call now b ≡ (false, b)
unfolding before_call update_state_if_needed
before_call_open now b s lt = ground arith
