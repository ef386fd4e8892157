-- ===== src/HttpResilience/Breaker.antt =====
-- The breaker of src/electripy/concurrency/http_resilience/circuit_breaker.py, with its
-- configuration from domain.py. The clock's readings are natural numbers of one fixed unit. Each
-- method reads the clock once for the update of the state and once for itself; the model takes
-- both readings.
pub mod Bounds
pub mod Calls
pub mod Trials
mod Tests
use electripy_ai.Prelude.{
  ℕ, ◌+◌, Bool, true, false, ◌&&◌, ◌||◌, Option, none, some, List, [], ◌∷◌, leb, ltb, if◌then◌else◌,
}

pub record CircuitBreakerConfig : Type 0 where
  pub failure_threshold : ℕ
  pub recovery_timeout : ℕ
  pub half_open_max_calls : ℕ
  pub half_open_success_threshold : ℕ

-- `__post_init__`: `none` is its `ValueError`.
pub make_config : ℕ → ℕ → ℕ → ℕ → Option CircuitBreakerConfig
make_config failures timeout max_calls successes =
    if ltb failures 1
    then none
    else if leb timeout 0
    then none
    else if ltb max_calls 1
    then none
    else if ltb successes 1
    then none
    else some (record {
      failure_threshold = failures;
      recovery_timeout = timeout;
      half_open_max_calls = max_calls;
      half_open_success_threshold = successes;
    })

pub data CircuitState : Type 0 where
  closed open_ half_open : CircuitState

pub record CircuitBreaker : Type 0 where
  pub config : CircuitBreakerConfig
  pub state : CircuitState
  pub consecutive_failures : ℕ
  pub last_state_change : ℕ
  pub half_open_calls : ℕ
  pub half_open_successes : ℕ

pub init : CircuitBreakerConfig → ℕ → CircuitBreaker
init config now = record {
  config = config;
  state = closed;
  consecutive_failures = 0;
  last_state_change = now;
  half_open_calls = 0;
  half_open_successes = 0;
}

pub transition_to : CircuitState → ℕ → CircuitBreaker → CircuitBreaker
transition_to new_state now b = record b {
  state = new_state;
  last_state_change = now;
  consecutive_failures = 0;
  half_open_calls = 0;
  half_open_successes = 0;
}

-- `now - last_state_change >= recovery_timeout_s`, with the subtraction moved to the other side.
update_from : CircuitState → ℕ → CircuitBreaker → CircuitBreaker
update_from open_ now b =
    if leb (b.last_state_change + b.config.recovery_timeout) now
    then transition_to half_open now b
    else b
update_from _ now b = b

pub update_state_if_needed : ℕ → CircuitBreaker → CircuitBreaker
unfolding update_from
update_state_if_needed now b = update_from b.state now b

-- The property `state`.
pub read_state : ℕ → CircuitBreaker → CircuitState × CircuitBreaker
read_state now b = let b' = update_state_if_needed now b in (b'.state, b')

admit : CircuitState → CircuitBreaker → Bool × CircuitBreaker
admit closed b = (true, b)
admit open_ b = (false, b)
admit half_open b =
    if leb b.config.half_open_max_calls b.half_open_calls
    then (false, b)
    else (true, record b { half_open_calls = b.half_open_calls + 1 })

-- `false` is the `CircuitOpenError`. The method's own reading of the clock is only logged.
pub before_call : ℕ → CircuitBreaker → Bool × CircuitBreaker
unfolding admit
before_call now b = let b' = update_state_if_needed now b in admit b'.state b'

settle : CircuitState → Bool → ℕ → CircuitBreaker → CircuitBreaker
settle closed true now b = record b { consecutive_failures = 0 }
settle half_open true now b =
    if leb b.config.half_open_success_threshold (b.half_open_successes + 1)
    then transition_to closed now b
    else record b { half_open_successes = b.half_open_successes + 1 }
settle open_ _ now b = b
settle closed false now b =
    if leb b.config.failure_threshold (b.consecutive_failures + 1)
    then transition_to open_ now b
    else record b { consecutive_failures = b.consecutive_failures + 1 }
settle half_open false now b = transition_to open_ now b

pub after_call : ℕ → ℕ → Bool → CircuitBreaker → CircuitBreaker
unfolding settle
after_call now later success b =
    let b' = update_state_if_needed now b in settle b'.state success later b'

-- One method call of some user of the breaker.
pub data Event : Type 0 where
  read before : ℕ → Event
  after : ℕ → ℕ → Bool → Event

pub step : CircuitBreaker → Event → CircuitBreaker
step b (read now) = (read_state now b).1
step b (before now) = (before_call now b).1
step b (after now later success) = after_call now later success b

pub run : CircuitBreaker → List Event → CircuitBreaker
run b [] = b
run b (e ∷ es) = run (step b e) es
