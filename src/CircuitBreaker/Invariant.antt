-- ===== src/CircuitBreaker/Invariant.antt =====
-- What holds of a breaker after any interleaving of its methods
-- (src/electripy/concurrency/circuit_breaker.py).
use electripy_ai.Prelude.{ℕ, ◌+◌, ◌≤◌, ◌<◌, ◌≡◌, ◌≢◌, List, [], ◌∷◌, arith}
use electripy_ai.CircuitBreaker.{
  closed, open_, half_open, CircuitBreaker, refused, init, maybe_transition_to_half_open,
  read_state, before_call, on_success, on_failure, reset, Event, read, before, succeed, fail, clear,
  step, run,
}

pub record IsValid (b : CircuitBreaker) : Type 0 where
  pub positive : (0 < b.failure_threshold) × (0 < b.success_threshold)
  pub below_threshold : b.state ≡ closed → b.failure_count < b.failure_threshold
  pub probing : b.state ≡ half_open → b.success_count < b.success_threshold
  pub no_probe : b.state ≢ half_open → b.success_count ≡ 0

step-IsValid : (b : CircuitBreaker) (e : Event) → IsValid b → IsValid (step b e)
unfolding step read_state before_call maybe_transition_to_half_open on_success on_failure reset
step-IsValid b (read now) v = ground arith
step-IsValid b (before now) v = ground arith
step-IsValid b succeed v = ground arith
step-IsValid b (fail now) v = ground arith
step-IsValid b clear v = ground arith

pub run_keeps-IsValid : (b : CircuitBreaker) (es : List Event) → IsValid b → IsValid (run b es)
unfolding run
run_keeps-IsValid b [] v = v
run_keeps-IsValid b (e ∷ es) v = run_keeps-IsValid (step b e) es (step-IsValid b e v)

init-IsValid :
    (failures timeout successes : ℕ)
    → 0 < failures
    → 0 < successes
    → IsValid (init failures timeout successes)
unfolding init
init-IsValid failures timeout successes f s = ground arith

-- A new breaker with positive thresholds, after any sequence of method calls of any threads: while
-- it is closed its failure count is below the threshold, while it is half-open its success count
-- is below the success threshold, and in the other states the success count is 0.
pub run-IsValid :
    (failures timeout successes : ℕ) (es : List Event)
    → 0 < failures
    → 0 < successes
    → IsValid (run (init failures timeout successes) es)
run-IsValid failures timeout successes es f s =
    run_keeps-IsValid _ es (init-IsValid failures timeout successes f s)

-- The clock's readings never fall, stay before the deadline, and nobody resets.
abbrev pub Before : ℕ → ℕ → List Event → Type 0
Before start deadline [] = Unit
Before start deadline (read now ∷ es) = (start ≤ now) × (now < deadline) × Before now deadline es
Before start deadline (before now ∷ es) = (start ≤ now) × (now < deadline) × Before now deadline es
Before start deadline (succeed ∷ es) = Before start deadline es
Before start deadline (fail now ∷ es) = (start ≤ now) × (now < deadline) × Before now deadline es
Before start deadline (clear ∷ es) = ⊥

-- The last reading of the clock in a run, or the given one if there is none.
abbrev pub last_reading : ℕ → List Event → ℕ
last_reading start [] = start
last_reading start (read now ∷ es) = last_reading now es
last_reading start (before now ∷ es) = last_reading now es
last_reading start (succeed ∷ es) = last_reading start es
last_reading start (fail now ∷ es) = last_reading now es
last_reading start (clear ∷ es) = last_reading start es

record Blocked (start deadline : ℕ) (b : CircuitBreaker) : Type 0 where
  opened : b.state ≡ open_
  since : b.opened_at ≤ start
  until : deadline ≤ b.opened_at + b.recovery_timeout

later-Blocked :
    (start now deadline : ℕ) (b : CircuitBreaker)
    → start ≤ now
    → Blocked start deadline b
    → Blocked now deadline b
later-Blocked start now deadline b le v = ground arith

wait-Blocked :
    (now deadline : ℕ) (b : CircuitBreaker)
    → now < deadline
    → Blocked now deadline b
    → maybe_transition_to_half_open now b ≡ b
unfolding maybe_transition_to_half_open
wait-Blocked now deadline b lt v = ground arith

fail-Blocked :
    (now deadline : ℕ) (b : CircuitBreaker)
    → Blocked now deadline b
    → Blocked now deadline (step b (fail now))
unfolding step on_failure
fail-Blocked now deadline b v = ground arith

succeed-Blocked :
    (start deadline : ℕ) (b : CircuitBreaker)
    → Blocked start deadline b
    → Blocked start deadline (step b succeed)
unfolding step on_success
succeed-Blocked start deadline b v = ground arith

wait_step-Blocked :
    (now deadline : ℕ) (b : CircuitBreaker)
    → now < deadline
    → Blocked now deadline b
    → (step b (read now) ≡ b) × (step b (before now) ≡ b)
unfolding step read_state before_call
wait_step-Blocked now deadline b lt v =
    (ground (arith, wait-Blocked now deadline b), ground (arith, wait-Blocked now deadline b))

refusal-Blocked :
    (now deadline : ℕ) (b : CircuitBreaker)
    → now < deadline
    → Blocked now deadline b
    → before_call now b
      ≡ (refused (record { failures = b.failure_count; recovery_timeout = b.recovery_timeout }), b)
unfolding before_call
refusal-Blocked now deadline b lt v = ground (arith, wait-Blocked now deadline b)

run-Blocked :
    (start deadline : ℕ) (b : CircuitBreaker) (es : List Event)
    → Blocked start deadline b
    → Before start deadline es
    → Blocked (last_reading start es) deadline (run b es)
unfolding run
run-Blocked start deadline b [] v h = v
run-Blocked start deadline b (read t ∷ es) v h =
    let w = later-Blocked start t deadline b h.0 v in
    rw ((wait_step-Blocked t deadline b h.1 w).0) (run-Blocked t deadline b es w h.2)
run-Blocked start deadline b (before t ∷ es) v h =
    let w = later-Blocked start t deadline b h.0 v in
    rw ((wait_step-Blocked t deadline b h.1 w).1) (run-Blocked t deadline b es w h.2)
run-Blocked start deadline b (succeed ∷ es) v h =
    run-Blocked start deadline (step b succeed) es (succeed-Blocked start deadline b v) h
run-Blocked start deadline b (fail t ∷ es) v h =
    run-Blocked t deadline (step b (fail t)) es
      (fail-Blocked t deadline b (later-Blocked start t deadline b h.0 v)) h.2
run-Blocked start deadline b (clear ∷ es) v h = absurd h

-- A breaker that is open refuses every call until its deadline: whatever methods the threads call
-- meanwhile, except `reset`, with readings of the clock that never fall and stay before the end of
-- the recovery timeout, it is open afterwards, and `before_call` at any later reading before that
-- end refuses and leaves the breaker as it is.
pub refused_until_deadline :
    (b : CircuitBreaker) (es : List Event) (now : ℕ)
    → b.state ≡ open_
    → Before b.opened_at (b.opened_at + b.recovery_timeout) es
    → last_reading b.opened_at es ≤ now
    → now < b.opened_at + b.recovery_timeout
    → ((run b es).state ≡ open_)
      × (before_call now (run b es) ≡ (
        refused (record {
          failures = (run b es).failure_count;
          recovery_timeout = (run b es).recovery_timeout;
        }),
        run b es,
      ))
refused_until_deadline b es now o h le lt =
    let deadline = b.opened_at + b.recovery_timeout in
    let v =
      run-Blocked b.opened_at deadline b es
        (record { opened = o; since = omega arith; until = omega arith }) h in
    (
      v.opened,
      refusal-Blocked now deadline (run b es) lt
          (later-Blocked (last_reading b.opened_at es) now deadline (run b es) le v),
    )
