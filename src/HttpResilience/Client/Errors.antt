-- ===== src/HttpResilience/Client/Errors.antt =====
-- What the request loop does when every attempt ends in an exception that the policy retries
-- (src/electripy/concurrency/http_resilience/services.py).
use electripy_ai.Prelude.{
  ℕ, zero, suc, ◌+◌, ◌≤◌, ◌<◌, ◌≡◌, refl, String, Bool, true, Option, none, arith,
}
use electripy_ai.HttpResilience.Breaker.{closed, CircuitBreaker}
use electripy_ai.HttpResilience.Breaker.Calls.{before_call_closed, after_call_fails}
use electripy_ai.HttpResilience.Retry.{ResponseData, HttpError, RetryPolicy}
use electripy_ai.HttpResilience.Client.{
  http_error, Env, retry_exhausted_error, finish, again, guarded_before, report, handle,
  admitted_round, round, rounds, request,
}
use electripy_ai.HttpResilience.Client.Sends.{Counts, sent-round}

module _ {W : Type 0} (env : Env W) (sent : W → ℕ) (counts : Counts env sent) where
  -- A port whose every answer is one retryable exception, and a breaker that is closed and does
  -- not reach its threshold before the last attempt.
  module _ (e : HttpError) (always : (w : W) → (env.send w).0 ≡ http_error e) (p : RetryPolicy)
      (retryable : p.retryable_exceptions e ≡ true) where
    failing_handle :
        (i a : Bool) (attempt : ℕ) (last : Option ResponseData) (b : CircuitBreaker) (w : W)
        → attempt + 1 < p.max_attempts
        → b.state ≡ closed
        → b.consecutive_failures + 1 < b.config.failure_threshold
        → ((handle env p i a attempt last b (http_error e, w)).0 ≡ again last)
          × ((handle env p i a attempt last b (http_error e, w)).1
              ≡ record b { consecutive_failures = b.consecutive_failures + 1 })
    unfolding handle report
    failing_handle i a attempt last b w more c lt =
        let t = (env.now w).0 in
        let t' = (env.now (env.now w).1).0 in
        (ground arith, ground (arith, after_call_fails t t' b c lt))

    failing_round :
        (i a : Bool) (attempt : ℕ) (last : Option ResponseData) (b : CircuitBreaker) (w : W)
        → attempt + 1 < p.max_attempts
        → b.state ≡ closed
        → b.consecutive_failures + 1 < b.config.failure_threshold
        → ((round env p i a attempt last b w).0 ≡ again last)
          × ((round env p i a attempt last b w).1
              ≡ record b { consecutive_failures = b.consecutive_failures + 1 })
    unfolding round guarded_before admitted_round
    failing_round i a attempt last b w more c lt =
        let w' = (env.now (env.now w).1).1 in
        let h = failing_handle i a attempt last b (env.send w').1 more c lt in
        let before = before_call_closed (env.now w).0 b c in
        (ground (arith, before, always w', h.0), ground (arith, before, always w', h.1))

    allowed_closed :
        (b : CircuitBreaker) (w : W) → b.state ≡ closed → (guarded_before env b w).0 ≡ true
    unfolding guarded_before
    allowed_closed b w c = ground (arith, before_call_closed (env.now w).0 b c)

    last_round :
        (i a : Bool) (attempt : ℕ) (last : Option ResponseData) (b : CircuitBreaker) (w : W)
        → attempt + 1 ≡ p.max_attempts
        → b.state ≡ closed
        → (round env p i a attempt last b w).0 ≡ finish (retry_exhausted_error none)
    unfolding round guarded_before admitted_round handle
    last_round i a attempt last b w end c =
        let w' = (env.now (env.now w).1).1 in
        ground (arith, before_call_closed (env.now w).0 b c, always w')

    failing_rounds :
        (i a : Bool) (left attempt : ℕ) (last : Option ResponseData) (b : CircuitBreaker) (w : W)
        → attempt + suc left ≡ p.max_attempts
        → b.state ≡ closed
        → b.consecutive_failures + suc left ≤ b.config.failure_threshold
        → ((rounds env p i a (suc left) attempt last b w).0 ≡ retry_exhausted_error none)
          × (sent (rounds env p i a (suc left) attempt last b w).2 ≡ sent w + suc left)
    unfolding rounds
    failing_rounds i a zero attempt last b w end c le =
        let done = last_round i a attempt last b w (omega arith) c in
        (
          ground (arith, done),
          ground (
            arith,
            done,
            sent-round env sent counts p i a attempt last b w,
            allowed_closed b w c,
          ),
        )
    failing_rounds i a (suc left) attempt last b w end c le =
        let (v, b', w') = round env p i a attempt last b w in
        let (more, counted) = failing_round i a attempt last b w (omega arith) c (omega arith) in
        let state' : b'.state ≡ closed = ground (arith, counted) in
        let failures' : b'.consecutive_failures + suc left ≤ b'.config.failure_threshold =
          ground (arith, counted) in
        let (reply, total) =
          failing_rounds i a left (attempt + 1) last b' w' (omega arith) state' failures' in
        (
          ground (arith, more, reply),
          ground (
            arith,
            more,
            total,
            sent-round env sent counts p i a attempt last b w,
            allowed_closed b w c,
          ),
        )

    all_rounds :
        (i a : Bool) (left : ℕ) (b : CircuitBreaker) (w : W)
        → 0 < left
        → left ≡ p.max_attempts
        → b.state ≡ closed
        → b.consecutive_failures + left ≤ b.config.failure_threshold
        → ((rounds env p i a left 0 none b w).0 ≡ retry_exhausted_error none)
          × (sent (rounds env p i a left 0 none b w).2 ≡ sent w + left)
    all_rounds i a zero b w pos end c le = absurd (omega arith)
    all_rounds i a (suc left) b w pos end c le =
        failing_rounds i a left 0 none b w (omega arith) c le

    -- In a world that counts what is sent, with a port whose every answer is one exception that
    -- the policy retries, and a breaker that is closed with room for `max_attempts` failures: a
    -- request is sent `max_attempts` times and ends in `RetryExhaustedError`, whatever its method
    -- and whether or not the policy or the call allows methods that are not idempotent to be
    -- retried.
    pub errors_retry_every_method :
        (method : String) (override : Option Bool) (b : CircuitBreaker) (w : W)
        → 0 < p.max_attempts
        → b.state ≡ closed
        → b.consecutive_failures + p.max_attempts ≤ b.config.failure_threshold
        → ((request env p method override b w).0 ≡ retry_exhausted_error none)
          × (sent (request env p method override b w).2 ≡ sent w + p.max_attempts)
    unfolding request
    errors_retry_every_method method override b w pos c le =
        all_rounds _ _ p.max_attempts b w pos refl c le
