-- ===== src/CircuitBreaker/Tests.antt =====
-- Runs of the breaker of src/electripy/concurrency/circuit_breaker.py, and the theorems at
-- concrete inputs.
use electripy_ai.Prelude.{◌≡◌, refl, true, false, List, [], ◌∷◌, arith}
use electripy_ai.CircuitBreaker.{
  open_, half_open, is, CircuitBreaker, init, maybe_transition_to_half_open, read_state,
  before_call, on_success, on_failure, reset, refused, settle, attempt, call, Event, read, before,
  succeed, fail, step, run,
}
use electripy_ai.CircuitBreaker.Invariant.{IsValid, run-IsValid, refused_until_deadline}
use electripy_ai.CircuitBreaker.Tripping.{drive, has_streak, opens_iff_streak, reopens_on_failure}

program : Unit {0}
unfolding init maybe_transition_to_half_open read_state before_call on_success on_failure reset
    settle attempt call step run
program = tt

-- Opened at time 10 by two failures, with a timeout of 5 and a success threshold of 2.
abbrev tripped : CircuitBreaker
tripped = record {
  failure_threshold = 2;
  recovery_timeout = 5;
  success_threshold = 2;
  failure_count = 2;
  success_count = 0;
  state = open_;
  opened_at = 10;
}

two_failures : run (init 2 5 2) (before 9 ∷ fail 9 ∷ before 10 ∷ fail 10 ∷ []) ≡ tripped
unfolding program
two_failures = refl

half_open_after_timeout : (read_state 15 tripped).0 ≡ half_open
unfolding program
half_open_after_timeout = refl

-- A call that was admitted before the breaker opened may end afterwards: its success clears the
-- failure count of the open breaker, and the next refusal reports 0 failures.
late_success_clears_count :
    (before_call 12 (run tripped (succeed ∷ []))).0
    ≡ refused (record { failures = 0; recovery_timeout = 5 })
unfolding program
late_success_clears_count = refl

-- Two probes at once: nothing limits the calls of the half-open state.
two_probes : (run tripped (before 15 ∷ before 15 ∷ [])).state ≡ half_open
unfolding program
two_probes = refl

run-IsValid_example :
    IsValid (run (init 2 5 2) (before 9 ∷ fail 9 ∷ before 10 ∷ fail 10 ∷ read 16 ∷ succeed ∷ []))
run-IsValid_example = run-IsValid 2 5 2 _ (omega arith) (omega arith)

abbrev busy : List Event
busy = read 11 ∷ succeed ∷ before 12 ∷ fail 13 ∷ []

refused_until_deadline_example :
    ((run tripped busy).state ≡ open_)
    × (before_call 14 (run tripped busy) ≡ (
      refused (record {
        failures = (run tripped busy).failure_count;
        recovery_timeout = (run tripped busy).recovery_timeout;
      }),
      run tripped busy,
    ))
refused_until_deadline_example =
    refused_until_deadline tripped busy 14 refl (omega arith) (omega arith) (omega arith)

opens_iff_streak_example :
    is (drive 3 (false ∷ true ∷ false ∷ false ∷ []) (init 2 5 1)).state open_
    ≡ has_streak 2 (false ∷ true ∷ false ∷ false ∷ [])
opens_iff_streak_example =
    opens_iff_streak 2 5 1 3 (false ∷ true ∷ false ∷ false ∷ []) (omega arith) (omega arith)

reopens_on_failure_example :
    drive 15 (false ∷ []) tripped
    ≡ record tripped { failure_count = 3; state = open_; opened_at = 15; success_count = 0 }
reopens_on_failure_example = reopens_on_failure tripped 15 refl (omega arith)
