-- ===== src/HttpResilience/Client/Outcomes.antt =====
-- How a request ends, and what it leaves of the breaker
-- (src/electripy/concurrency/http_resilience/services.py).
use electripy_ai.Prelude.{
  ℕ, zero, suc, ◌+◌, ◌<◌, ◌≡◌, refl, String, Bool, true, false, Option, none, some, inl, inr, not,
  arith,
}
use electripy_ai.HttpResilience.Breaker.{open_, CircuitBreaker, before_call}
use electripy_ai.HttpResilience.Breaker.Bounds.{IsValid, before_call-IsValid, after_call-IsValid}
use electripy_ai.HttpResilience.Breaker.Calls.{before_call_open}
use electripy_ai.HttpResilience.Retry.{ResponseData, is_success, is_idempotent_method, RetryPolicy}
use electripy_ai.HttpResilience.Client.{
  PortResult, response, http_error, crash, Env, Reply, ok, circuit_open_error,
  retry_exhausted_error, crashed, Verdict, finish, again, guarded_before, report, handle,
  admitted_round, allows, round, rounds, request,
}
use electripy_ai.HttpResilience.Client.Sends.{Verdict-cases}

-- A kept response is no success; a returned one is.
honest_last : Option ResponseData → Bool
honest_last none = true
honest_last (some r) = not (is_success r)

honest : Reply → Bool
honest (ok r) = is_success r
honest (retry_exhausted_error last) = honest_last last
honest circuit_open_error = true
honest crashed = true

honest_verdict : Verdict → Bool
honest_verdict (finish reply) = honest reply
honest_verdict (again last) = honest_last last

module _ {W : Type 0} (env : Env W) (p : RetryPolicy) where
  handle_honest :
      (i a : Bool) (attempt : ℕ) (last : Option ResponseData) (b : CircuitBreaker) (r : PortResult)
      (w : W)
      → honest_last last ≡ true
      → honest_verdict (handle env p i a attempt last b (r, w)).0 ≡ true
  unfolding handle honest_verdict honest honest_last
  handle_honest i a attempt last b crash w h = ground arith
  handle_honest i a attempt last b (http_error e) w h = ground arith
  handle_honest i a attempt last b (response r) w h = ground arith

  round_honest :
      (i a : Bool) (attempt : ℕ) (last : Option ResponseData) (b : CircuitBreaker) (w : W)
      → honest_last last ≡ true
      → honest_verdict (round env p i a attempt last b w).0 ≡ true
  unfolding round admitted_round honest_verdict honest
  round_honest i a attempt last b w h =
      let (allowed, b', w') = guarded_before env b w in
      let (r, w'') = env.send w' in ground (arith, handle_honest i a attempt last b' r w'' h)

  rounds-honest :
      (i a : Bool) (left attempt : ℕ) (last : Option ResponseData) (b : CircuitBreaker) (w : W)
      → honest_last last ≡ true
      → honest (rounds env p i a left attempt last b w).0 ≡ true
  unfolding rounds honest honest_verdict
  rounds-honest i a zero attempt last b w h = h
  rounds-honest i a (suc left) attempt last b w h =
      let (v, b', w') = round env p i a attempt last b w in
      let good = round_honest i a attempt last b w h in
      elim (Verdict-cases v) [
        | inl (reply, e) ↦ ground (arith, good)
        | inr (l, e) ↦
            ground (arith, rounds-honest i a left (attempt + 1) l b' w' (ground (arith, good)))
      ]

  -- Whatever the port, the clock and the breaker do: a response that a request returns has a 2xx
  -- status, and a response that a `RetryExhaustedError` carries does not.
  pub request_honest :
      (method : String) (override : Option Bool) (b : CircuitBreaker) (w : W)
      → ((r : ResponseData) → (request env p method override b w).0 ≡ ok r → is_success r ≡ true)
        × ((r : ResponseData)
            → (request env p method override b w).0 ≡ retry_exhausted_error (some r)
            → is_success r ≡ false)
  unfolding request honest honest_last
  request_honest method override b w =
      let good =
        rounds-honest (is_idempotent_method method) (allows p override) p.max_attempts 0 none b w
          refl in
      (λ r e. ground (arith, good), λ r e. ground (arith, good))

  module _ (b : CircuitBreaker) (opened : b.state ≡ open_)
      (early : (w : W) → (env.now w).0 < b.last_state_change + b.config.recovery_timeout) where
    refused_round :
        (i a : Bool) (attempt : ℕ) (last : Option ResponseData) (w : W)
        → round env p i a attempt last b w
          ≡ (finish circuit_open_error, b, (env.now (env.now w).1).1)
    unfolding round guarded_before admitted_round
    refused_round i a attempt last w =
        ground (arith, before_call_open (env.now w).0 b opened (early w))

    refused_rounds :
        (i a : Bool) (left : ℕ) (w : W)
        → 0 < left
        → rounds env p i a left 0 none b w ≡ (circuit_open_error, b, (env.now (env.now w).1).1)
    unfolding rounds
    refused_rounds i a zero w h = absurd (omega arith)
    refused_rounds i a (suc left) w h = ground (arith, refused_round i a 0 none w)

    -- With a breaker that is open, and a clock whose readings are before the end of its timeout: a
    -- request ends at once in `CircuitOpenError`, the breaker stays as it is, and the world has
    -- seen nothing but two readings of the clock.
    request_refused :
        (method : String) (override : Option Bool) (w : W)
        → 0 < p.max_attempts
        → request env p method override b w ≡ (circuit_open_error, b, (env.now (env.now w).1).1)
    unfolding request
    request_refused method override w pos = refused_rounds _ _ p.max_attempts w pos

  pub handle-IsValid :
      (i a : Bool) (attempt : ℕ) (last : Option ResponseData) (b : CircuitBreaker) (r : PortResult)
      (w : W)
      → IsValid b
      → IsValid (handle env p i a attempt last b (r, w)).1
  unfolding handle report
  handle-IsValid i a attempt last b r w v =
      let t = (env.now w).0 in
      let t' = (env.now (env.now w).1).0 in
      grind (arith, after_call-IsValid t t' true b v, after_call-IsValid t t' false b v)

  round-IsValid :
      (i a : Bool) (attempt : ℕ) (last : Option ResponseData) (b : CircuitBreaker) (w : W)
      → IsValid b
      → IsValid (round env p i a attempt last b w).1
  unfolding round guarded_before admitted_round
  round-IsValid i a attempt last b w v =
      let t = (env.now w).0 in
      let w' = (env.now (env.now w).1).1 in
      let (r, w'') = env.send w' in
      let b' = (before_call t b).1 in
      grind (
        arith,
        before_call-IsValid t b v,
        handle-IsValid i a attempt last b' r w'' (before_call-IsValid t b v),
      )

  rounds-IsValid :
      (i a : Bool) (left attempt : ℕ) (last : Option ResponseData) (b : CircuitBreaker) (w : W)
      → IsValid b
      → IsValid (rounds env p i a left attempt last b w).1
  unfolding rounds
  rounds-IsValid i a zero attempt last b w v = v
  rounds-IsValid i a (suc left) attempt last b w v =
      let (verdict, b', w') = round env p i a attempt last b w in
      let v' = round-IsValid i a attempt last b w v in
      elim (Verdict-cases verdict) [
        | inl (reply, e) ↦ rw (e, rounds) v'
        | inr (l, e) ↦ rw (e, rounds) (rounds-IsValid i a left (attempt + 1) l b' w' v')
      ]

  -- A request keeps the counters of its breaker within their bounds, however it ends.
  request-IsValid :
      (method : String) (override : Option Bool) (b : CircuitBreaker) (w : W)
      → IsValid b
      → IsValid (request env p method override b w).1
  unfolding request
  request-IsValid method override b w v = rounds-IsValid _ _ p.max_attempts 0 none b w v
