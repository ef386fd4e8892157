-- ===== src/HttpResilience/Breaker/Bounds.antt =====
-- The counters of the breaker stay within its configuration
-- (src/electripy/concurrency/http_resilience/circuit_breaker.py).
use electripy_ai.Prelude.{ℕ, ◌≤◌, ◌<◌, ◌≡◌, ◌≢◌, Bool, some, List, [], ◌∷◌, arith}
use electripy_ai.HttpResilience.Breaker.{
  CircuitBreakerConfig, make_config, closed, half_open, CircuitBreaker, init, transition_to,
  update_state_if_needed, read_state, before_call, after_call, Event, read, before, after, step,
  run,
}

pub record IsValid (b : CircuitBreaker) : Type 0 where
  pub positive : (0 < b.config.failure_threshold) × (0 < b.config.half_open_success_threshold)
  pub below_threshold : b.consecutive_failures < b.config.failure_threshold
  pub admitted : b.half_open_calls ≤ b.config.half_open_max_calls
  pub successful : b.half_open_successes < b.config.half_open_success_threshold
  pub no_failures : b.state ≢ closed → b.consecutive_failures ≡ 0
  pub no_trial : b.state ≢ half_open → (b.half_open_calls ≡ 0) × (b.half_open_successes ≡ 0)

update-IsValid : (now : ℕ) (b : CircuitBreaker) → IsValid b → IsValid (update_state_if_needed now b)
unfolding update_state_if_needed transition_to
update-IsValid now b v = ground arith

pub before_call-IsValid : (now : ℕ) (b : CircuitBreaker) → IsValid b → IsValid (before_call now b).1
unfolding before_call
before_call-IsValid now b v = ground (arith, update-IsValid now b v)

pub after_call-IsValid :
    (now later : ℕ) (success : Bool) (b : CircuitBreaker)
    → IsValid b
    → IsValid (after_call now later success b)
unfolding after_call transition_to
after_call-IsValid now later success b v = ground (arith, update-IsValid now b v)

step-IsValid : (b : CircuitBreaker) (e : Event) → IsValid b → IsValid (step b e)
unfolding step read_state
step-IsValid b (read now) v = update-IsValid now b v
step-IsValid b (before now) v = before_call-IsValid now b v
step-IsValid b (after now later success) v = after_call-IsValid now later success b v

run_keeps-IsValid : (b : CircuitBreaker) (es : List Event) → IsValid b → IsValid (run b es)
unfolding run
run_keeps-IsValid b [] v = v
run_keeps-IsValid b (e ∷ es) v = run_keeps-IsValid (step b e) es (step-IsValid b e v)

init-IsValid :
    (failures timeout max_calls successes now : ℕ) (c : CircuitBreakerConfig)
    → make_config failures timeout max_calls successes ≡ some c
    → IsValid (init c now)
unfolding make_config init
init-IsValid failures timeout max_calls successes now c e = ground arith

-- With a configuration that its constructor accepts, after any sequence of method calls in any
-- order: the failures are below the failure threshold, at most `half_open_max_calls` trial calls
-- are counted, the trial successes are below their threshold, failures are counted only while the
-- breaker is closed, and trial calls only while it is half-open.
pub counters_in_bounds :
    (failures timeout max_calls successes now : ℕ) (c : CircuitBreakerConfig) (es : List Event)
    → make_config failures timeout max_calls successes ≡ some c
    → IsValid (run (init c now) es)
counters_in_bounds failures timeout max_calls successes now c es e =
    run_keeps-IsValid (init c now) es (init-IsValid failures timeout max_calls successes now c e)
