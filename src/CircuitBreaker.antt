-- ===== src/CircuitBreaker.antt =====
-- The thread-safe breaker of src/electripy/concurrency/circuit_breaker.py.
-- Times are readings of the monotonic clock, as natural numbers of one fixed unit, and every
-- method takes the reading that it makes. The lock makes each method below atomic, so a run of
-- several threads is a sequence of these operations.
pub mod Invariant
pub mod Tripping
mod Tests
use electripy_ai.Prelude.{ℕ, ◌+◌, Bool, true, false, ◌&&◌, List, [], ◌∷◌, leb, if◌then◌else◌}

pub data CircuitState : Type 0 where
  closed open_ half_open : CircuitState

-- `is`, the identity test on enum members.
abbrev pub is : CircuitState → CircuitState → Bool
is closed closed = true
is open_ open_ = true
is half_open half_open = true
is _ _ = false

pub record CircuitOpenError : Type 0 where
  pub failures : ℕ
  pub recovery_timeout : ℕ

pub record CircuitBreaker : Type 0 where
  pub failure_threshold : ℕ
  pub recovery_timeout : ℕ
  pub success_threshold : ℕ
  pub failure_count : ℕ
  pub success_count : ℕ
  pub state : CircuitState
  pub opened_at : ℕ

pub init : ℕ → ℕ → ℕ → CircuitBreaker
init failure_threshold recovery_timeout success_threshold = record {
  failure_threshold = failure_threshold;
  recovery_timeout = recovery_timeout;
  success_threshold = success_threshold;
  failure_count = 0;
  success_count = 0;
  state = closed;
  opened_at = 0;
}

-- `now - opened_at >= recovery_timeout`, with the subtraction moved to the other side.
pub maybe_transition_to_half_open : ℕ → CircuitBreaker → CircuitBreaker
maybe_transition_to_half_open now b =
    if is b.state open_ && leb (b.opened_at + b.recovery_timeout) now
    then record b { state = half_open; success_count = 0 }
    else b

-- The property `state`, which may move the breaker.
pub read_state : ℕ → CircuitBreaker → CircuitState × CircuitBreaker
read_state now b = let b' = maybe_transition_to_half_open now b in (b'.state, b')

-- What a guarded step gives: the value, or the refusal of the breaker.
pub data Admission : Type 0 where
  admitted : Admission
  refused : CircuitOpenError → Admission

pub before_call : ℕ → CircuitBreaker → Admission × CircuitBreaker
before_call now b =
    let b' = maybe_transition_to_half_open now b in
    if is b'.state open_
    then (
      refused (record { failures = b'.failure_count; recovery_timeout = b'.recovery_timeout }),
      b',
    )
    else (admitted, b')

pub on_success : CircuitBreaker → CircuitBreaker
on_success b =
    if is b.state half_open
    then (if leb b.success_threshold (b.success_count + 1)
        then record b { state = closed; failure_count = 0; success_count = 0 }
        else record b { success_count = b.success_count + 1 })
    else record b { failure_count = 0 }

pub on_failure : ℕ → CircuitBreaker → CircuitBreaker
on_failure now b =
    if is b.state half_open
    then record b {
      failure_count = b.failure_count + 1;
      state = open_;
      opened_at = now;
      success_count = 0;
    }
    else if leb b.failure_threshold (b.failure_count + 1)
    then record b { failure_count = b.failure_count + 1; state = open_; opened_at = now }
    else record b { failure_count = b.failure_count + 1 }

pub reset : CircuitBreaker → CircuitBreaker
reset b = record b { state = closed; failure_count = 0; success_count = 0 }

-- How the wrapped callable ends, and what `call` makes of it.
pub data Outcome {ℓ} (A E : Type ℓ) : Type ℓ where
  returned : A → Outcome A E
  raised : E → Outcome A E

pub data CallResult {ℓ} (A E : Type ℓ) : Type ℓ where
  result : A → CallResult A E
  failed : E → CallResult A E
  rejected : CircuitOpenError → CallResult A E

module _ {ℓ} {A E : Type ℓ} where
  -- The `try`/`except`/else part of `call`, after the callable ended at time `now`.
  pub settle : ℕ → Outcome A E → CircuitBreaker → CallResult A E × CircuitBreaker
  settle now (returned a) b = (result a, on_success b)
  settle now (raised e) b = (failed e, on_failure now b)

module _ {ℓ} {A E W : Type ℓ} where
  -- The callable works on a world `W` of its own; `now` and `later` are the clock's readings
  -- before it starts and after it ends.
  pub attempt :
      ℕ
      → (W → Outcome A E × W)
      → Admission × CircuitBreaker
      → W
      → CallResult A E × CircuitBreaker × W
  attempt later fn (refused e, b) w = (rejected e, b, w)
  attempt later fn (admitted, b) w =
      let (o, w') = fn w in let (r, b') = settle later o b in (r, b', w')

  pub call :
      ℕ → ℕ → (W → Outcome A E × W) → CircuitBreaker → W → CallResult A E × CircuitBreaker × W
  call now later fn b w = attempt later fn (before_call now b) w

-- One operation of some thread. `succeed` and `fail` end a call that was admitted earlier, and
-- may come when the breaker has moved on.
pub data Event : Type 0 where
  read before : ℕ → Event
  succeed : Event
  fail : ℕ → Event
  clear : Event

pub step : CircuitBreaker → Event → CircuitBreaker
step b (read now) = (read_state now b).1
step b (before now) = (before_call now b).1
step b succeed = on_success b
step b (fail now) = on_failure now b
step b clear = reset b

pub run : CircuitBreaker → List Event → CircuitBreaker
run b [] = b
run b (e ∷ es) = run (step b e) es
