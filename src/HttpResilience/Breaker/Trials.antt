-- ===== src/HttpResilience/Breaker/Trials.antt =====
-- What the half-open state admits, and whether the breaker recovers
-- (src/electripy/concurrency/http_resilience/circuit_breaker.py).
use electripy_ai.Prelude.{
  ℕ, zero, suc, ◌+◌, ◌-◌, ◌≤◌, ◌<◌, min, ◌≡◌, refl, ap, ◌∙◌, true, List, [], ◌∷◌, arith, length,
  if◌then◌else◌,
}
use electripy_ai.HttpResilience.Breaker.{
  closed, open_, half_open, CircuitBreaker, transition_to, update_state_if_needed, admit,
  before_call, after_call,
}

-- How many of some calls are let through, none of which ends meanwhile.
pub admissions : List ℕ → CircuitBreaker → ℕ
admissions [] b = 0
admissions (now ∷ times) b =
    let (ok, b') = before_call now b in (if ok then 1 else 0) + admissions times b'

before_half_open :
    (now : ℕ) (b : CircuitBreaker) → b.state ≡ half_open → before_call now b ≡ admit half_open b
unfolding before_call update_state_if_needed
before_half_open now b s = ground arith

-- A half-open breaker lets through as many calls as its limit leaves, whenever they come, however
-- many ask, as long as none of them ends.
admissions-half_open :
    (times : List ℕ) (b : CircuitBreaker)
    → b.state ≡ half_open
    → admissions times b ≡ min (length times) (b.config.half_open_max_calls - b.half_open_calls)
unfolding admissions admit
admissions-half_open [] b s = omega arith
admissions-half_open (now ∷ times) b s = ground (
  arith,
  before_half_open now b s,
  admissions-half_open times b s,
  admissions-half_open times (record b { half_open_calls = b.half_open_calls + 1 }) s,
)

-- One call that succeeds, if it is let through. The clock is read for the call, and twice for its report.
pub good_call : ℕ × ℕ × ℕ → CircuitBreaker → CircuitBreaker
good_call (asked, now, later) b =
    let (ok, b') = before_call asked b in if ok then after_call now later true b' else b'

-- Calls one after another, each with its readings of the clock.
pub good_calls : List (ℕ × ℕ × ℕ) → CircuitBreaker → CircuitBreaker
good_calls [] b = b
good_calls (t ∷ times) b = good_calls times (good_call t b)

good_call_elapsed :
    (t : ℕ × ℕ × ℕ) (b : CircuitBreaker)
    → b.state ≡ open_
    → b.last_state_change + b.config.recovery_timeout ≤ t.0
    → good_call t b ≡ good_call t (transition_to half_open t.0 b)
unfolding good_call before_call update_state_if_needed transition_to
good_call_elapsed t b s le = ground arith

module _ (t : ℕ × ℕ × ℕ) (b : CircuitBreaker) (s : b.state ≡ half_open)
    (e : b.half_open_calls ≡ b.half_open_successes) where
  good_call_counts :
      b.half_open_calls < b.config.half_open_max_calls
      → b.half_open_successes + 1 < b.config.half_open_success_threshold
      → good_call t b ≡ record b {
        half_open_calls = b.half_open_calls + 1;
        half_open_successes = b.half_open_successes + 1;
      }
  unfolding good_call before_call after_call update_state_if_needed
  good_call_counts lt more = ground arith

  good_call_closes :
      b.half_open_calls < b.config.half_open_max_calls
      → b.config.half_open_success_threshold ≤ b.half_open_successes + 1
      → (good_call t b).state ≡ closed
  unfolding good_call before_call after_call update_state_if_needed transition_to
  good_call_closes lt enough = ground arith

  good_call_refused : b.config.half_open_max_calls ≤ b.half_open_calls → good_call t b ≡ b
  unfolding good_call before_call after_call update_state_if_needed
  good_call_refused le = ground arith

good_call_closed :
    (t : ℕ × ℕ × ℕ) (b : CircuitBreaker) → b.state ≡ closed → (good_call t b).state ≡ closed
unfolding good_call before_call after_call update_state_if_needed
good_call_closed t b s = ground arith

good_calls_closed :
    (times : List (ℕ × ℕ × ℕ)) (b : CircuitBreaker)
    → b.state ≡ closed
    → (good_calls times b).state ≡ closed
unfolding good_calls
good_calls_closed [] b s = s
good_calls_closed (t ∷ times) b s = good_calls_closed times (good_call t b) (good_call_closed t b s)

-- `gap` more trials succeed before the next one closes the breaker.
good_calls_recover :
    (gap : ℕ) (times : List (ℕ × ℕ × ℕ)) (b : CircuitBreaker)
    → b.state ≡ half_open
    → b.half_open_calls ≡ b.half_open_successes
    → b.config.half_open_success_threshold ≡ b.half_open_successes + gap + 1
    → b.config.half_open_success_threshold ≤ b.config.half_open_max_calls
    → gap < length times
    → (good_calls times b).state ≡ closed
unfolding good_calls
good_calls_recover gap [] b s e m le lt = absurd (omega arith)
good_calls_recover zero (t ∷ times) b s e m le lt =
    good_calls_closed times (good_call t b) (good_call_closes t b s e (omega arith) (omega arith))
good_calls_recover (suc gap) (t ∷ times) b s e m le lt =
    ap (λ c. (good_calls times c).state) (good_call_counts t b s e (omega arith) (omega arith))
    ∙ good_calls_recover gap times
        (record b {
          half_open_calls = b.half_open_calls + 1;
          half_open_successes = b.half_open_successes + 1;
        })
        s (omega arith) (omega arith) le (omega arith)

abbrev trials : ℕ → CircuitBreaker → CircuitBreaker
trials n b = record b { half_open_calls = n; half_open_successes = n }

refused_forever :
    (times : List (ℕ × ℕ × ℕ)) (b : CircuitBreaker)
    → b.state ≡ half_open
    → b.half_open_calls ≡ b.half_open_successes
    → b.config.half_open_max_calls ≤ b.half_open_calls
    → good_calls times b ≡ b
unfolding good_calls
refused_forever [] b s e le = refl
refused_forever (t ∷ times) b s e le =
    ap (good_calls times) (good_call_refused t b s e le) ∙ refused_forever times b s e le

good_calls_starve :
    (room : ℕ) (times : List (ℕ × ℕ × ℕ)) (b : CircuitBreaker)
    → b.state ≡ half_open
    → b.half_open_calls ≡ b.half_open_successes
    → b.config.half_open_max_calls ≡ b.half_open_calls + room
    → b.config.half_open_max_calls < b.config.half_open_success_threshold
    → good_calls times b ≡ trials (b.half_open_calls + min (length times) room) b
unfolding good_calls
good_calls_starve room [] b s e m lt = ground arith
good_calls_starve zero (t ∷ times) b s e m lt =
    refused_forever (t ∷ times) b s e (omega arith) ∙ ground arith
good_calls_starve (suc room) (t ∷ times) b s e m lt =
    ap (good_calls times) (good_call_counts t b s e (omega arith) (omega arith))
    ∙ good_calls_starve room times
        (record b {
          half_open_calls = b.half_open_calls + 1;
          half_open_successes = b.half_open_successes + 1;
        })
        s (omega arith) (omega arith) lt
    ∙ ground arith

-- A breaker that is open, with `half_open_success_threshold` positive and at most
-- `half_open_max_calls`: calls one after another, whatever the clock reads in each but that its timeout
-- has passed when the first one asks, all of which succeed if they are let through, leave it closed once
-- there are as many of them as that threshold, or more.
pub recovers :
    (b : CircuitBreaker) (t : ℕ × ℕ × ℕ) (times : List (ℕ × ℕ × ℕ))
    → b.state ≡ open_
    → b.last_state_change + b.config.recovery_timeout ≤ t.0
    → 0 < b.config.half_open_success_threshold
    → b.config.half_open_success_threshold ≤ b.config.half_open_max_calls
    → b.config.half_open_success_threshold ≤ length (t ∷ times)
    → (good_calls (t ∷ times) b).state ≡ closed
unfolding good_calls transition_to
recovers b t times s le p m lt =
    ap (λ c. (good_calls times c).state) (good_call_elapsed t b s le)
    ∙ good_calls_recover (b.config.half_open_success_threshold - 1) (t ∷ times)
        (transition_to half_open t.0 b) refl refl (omega arith) m (omega arith)

-- A breaker that is open, with `half_open_max_calls` below `half_open_success_threshold`, an order that the
-- configuration accepts: after any calls one after another, all of which would succeed, the first one when
-- the timeout has passed, the breaker is half-open, only `half_open_max_calls` of them are let through, and
-- it never closes.
starves :
    (b : CircuitBreaker) (t : ℕ × ℕ × ℕ) (times : List (ℕ × ℕ × ℕ))
    → b.state ≡ open_
    → b.last_state_change + b.config.recovery_timeout ≤ t.0
    → b.config.half_open_max_calls < b.config.half_open_success_threshold
    → good_calls (t ∷ times) b ≡ record b {
      state = half_open;
      last_state_change = t.0;
      consecutive_failures = 0;
      half_open_calls = min (length (t ∷ times)) b.config.half_open_max_calls;
      half_open_successes = min (length (t ∷ times)) b.config.half_open_max_calls;
    }
unfolding good_calls transition_to
starves b t times s le lt =
    ap (good_calls times) (good_call_elapsed t b s le)
    ∙ good_calls_starve b.config.half_open_max_calls (t ∷ times) (transition_to half_open t.0 b)
        refl refl (omega arith) lt
    ∙ ground arith
