-- ===== src/HttpResilience/Breaker/Tests.antt =====
-- Runs of the breaker of src/electripy/concurrency/http_resilience/circuit_breaker.py, and the
-- theorems at concrete inputs.
use electripy_ai.Prelude.{◌≡◌, refl, true, false, some, [], ◌∷◌, arith}
use electripy_ai.HttpResilience.Breaker.{
  CircuitBreakerConfig, make_config, closed, open_, half_open, CircuitBreaker, init, transition_to,
  update_state_if_needed, before_call, after_call, read, before, after, step, run,
}
use electripy_ai.HttpResilience.Breaker.Bounds.{IsValid, counters_in_bounds}
use electripy_ai.HttpResilience.Breaker.Trials.{good_calls, recovers}

-- Two trial calls are allowed, and two must succeed.
abbrev config : CircuitBreakerConfig
config = record {
  failure_threshold = 2;
  recovery_timeout = 5;
  half_open_max_calls = 2;
  half_open_success_threshold = 2;
}

abbrev tripped : CircuitBreaker
tripped = record {
  config = config;
  state = open_;
  consecutive_failures = 0;
  last_state_change = 10;
  half_open_calls = 0;
  half_open_successes = 0;
}

two_failures :
    run (init config 8) (before 9 ∷ after 9 9 false ∷ before 10 ∷ after 10 10 false ∷ []) ≡ tripped
unfolding run step init before_call after_call update_state_if_needed transition_to
two_failures = refl

abbrev lenient : CircuitBreakerConfig
lenient = record config { failure_threshold = 1; half_open_success_threshold = 1 }

-- Two calls are let in while the breaker is closed. One fails and opens it; the other succeeds after the
-- timeout and closes it, and no trial call was let in.
late_success :
    run (init lenient 8) (before 9 ∷ before 9 ∷ after 10 10 false ∷ after 20 20 true ∷ [])
    ≡ record tripped { config = lenient; state = closed; last_state_change = 20 }
unfolding run step init before_call after_call update_state_if_needed transition_to
late_success = refl

counters_in_bounds_example :
    IsValid (run (init config 8) (before 9 ∷ after 9 9 false ∷ before 10 ∷ read 11 ∷ []))
unfolding make_config
counters_in_bounds_example = counters_in_bounds 2 5 2 2 8 config _ refl

abbrev trying : CircuitBreaker
trying = record tripped { state = half_open; half_open_calls = 1 }

recovers_example : (good_calls ((15, 16, 17) ∷ (30, 40, 40) ∷ []) tripped).state ≡ closed
recovers_example =
    recovers tripped (15, 16, 17) ((30, 40, 40) ∷ []) refl (omega arith) (omega arith) (omega arith)
      (omega arith)

-- One trial call is allowed, and two must succeed.
abbrev narrow : CircuitBreaker
narrow = record tripped { config = record config { half_open_max_calls = 1 } }

narrow_is_accepted : make_config 2 5 1 2 ≡ some narrow.config
unfolding make_config
narrow_is_accepted = refl
