-- ===== src/HttpResilience/Client.antt =====
-- The request loop of src/electripy/concurrency/http_resilience/services.py
-- (`ResilientSyncHttpClient`). The clock, the HTTP port and `sleep` are operations on a world of the
-- caller's choice. The URL, headers and body of a request go to the port unchanged, and are part of
-- what the world's `send` does.
pub mod Sends
pub mod Errors
pub mod Outcomes
pub mod Async
mod Tests
use electripy_ai.Prelude.{
  ℕ, zero, suc, ◌+◌, ◌-◌, String, Bool, true, false, not, ◌&&◌, ◌||◌, Option, none, some, List, [],
  ◌∷◌, leb, ◌==◌, if◌then◌else◌,
}
use electripy_ai.HttpResilience.Breaker.{CircuitBreaker, before_call, after_call}
use electripy_ai.HttpResilience.Retry.{
  ResponseData, is_success, is_idempotent_method, HttpError, RetryPolicy, calculate_delay,
}

-- What the port does: a response, an `HttpClientError`, or any other exception.
pub data PortResult : Type 0 where
  response : ResponseData → PortResult
  http_error : HttpError → PortResult
  crash : PortResult

-- `uniform` and `parse_float` stand for `random.uniform` and `float`.
pub record Env (W : Type 0) : Type 0 where
  pub now : W → ℕ × W
  pub send : W → PortResult × W
  pub sleep : ℕ → W → W
  pub uniform : ℕ → ℕ → ℕ
  pub parse_float : String → Option ℕ

-- How `request` ends.
pub data Reply : Type 0 where
  ok : ResponseData → Reply
  circuit_open_error : Reply
  retry_exhausted_error : Option ResponseData → Reply
  crashed : Reply

-- How one round of the loop ends; `again` carries `last_response`.
pub data Verdict : Type 0 where
  finish : Reply → Verdict
  again : Option ResponseData → Verdict

pub contains : List ℕ → ℕ → Bool
contains [] a = false
contains (x ∷ xs) a = a == x || contains xs a

-- `override` is the argument `allow_retry_for_non_idempotent` of a request.
abbrev pub allows : RetryPolicy → Option Bool → Bool
allows p none = p.allow_retry_non_idempotent
allows p (some a) = a

module _ {W : Type 0} (env : Env W) where
  pub guarded_before : CircuitBreaker → W → Bool × CircuitBreaker × W
  guarded_before b w =
      let (t, w1) = env.now w in
      let (_, w2) = env.now w1 in let (allowed, b') = before_call t b in (allowed, b', w2)

  pub report : Bool → CircuitBreaker → W → CircuitBreaker × W
  report success b w =
      let (t, w1) = env.now w in let (t', w2) = env.now w1 in (after_call t t' success b, w2)

  pub wait : RetryPolicy → ℕ → Option ResponseData → W → W
  wait p attempt last w = env.sleep (calculate_delay p env.uniform env.parse_float attempt last) w

  -- After the port answered, in the round `attempt`.
  pub handle :
      RetryPolicy
      → Bool
      → Bool
      → ℕ
      → Option ResponseData
      → CircuitBreaker
      → PortResult × W
      → Verdict × CircuitBreaker × W
  handle p is_idempotent allow attempt last b (crash, w) = (finish crashed, b, w)
  handle p is_idempotent allow attempt last b (http_error e, w) =
      let (b', w') = report false b w in
      if not (p.retryable_exceptions e) || leb (p.max_attempts - 1) attempt
      then (finish (retry_exhausted_error none), b', w')
      else (again last, b', wait p attempt none w')
  handle p is_idempotent allow attempt last b (response r, w) =
      if is_success r
      then (let (b', w') = report true b w in (finish (ok r), b', w'))
      else (let (b', w') = report false b w in
          if not (contains p.retryable_status_codes r.status_code)
            || ((not is_idempotent && not allow) || leb (p.max_attempts - 1) attempt)
          then (finish (retry_exhausted_error (some r)), b', w')
          else (again (some r), b', wait p attempt (some r) w'))

  pub admitted_round :
      RetryPolicy
      → Bool
      → Bool
      → ℕ
      → Option ResponseData
      → Bool × CircuitBreaker × W
      → Verdict × CircuitBreaker × W
  admitted_round p is_idempotent allow attempt last (false, b, w) =
      (finish circuit_open_error, b, w)
  admitted_round p is_idempotent allow attempt last (true, b, w) =
      handle p is_idempotent allow attempt last b (env.send w)

  pub round :
      RetryPolicy
      → Bool
      → Bool
      → ℕ
      → Option ResponseData
      → CircuitBreaker
      → W
      → Verdict × CircuitBreaker × W
  round p is_idempotent allow attempt last b w =
      admitted_round p is_idempotent allow attempt last (guarded_before b w)

  -- `for attempt in range(max_attempts)`, with `left` rounds to go.
  pub rounds :
      RetryPolicy
      → Bool
      → Bool
      → ℕ
      → ℕ
      → Option ResponseData
      → CircuitBreaker
      → W
      → Reply × CircuitBreaker × W
  rounds p is_idempotent allow zero attempt last b w = (retry_exhausted_error last, b, w)
  rounds p is_idempotent allow (suc left) attempt last b w =
      let (v, b', w') = round p is_idempotent allow attempt last b w in
      elim v [
        | finish reply ↦ (reply, b', w')
        | again last' ↦ rounds p is_idempotent allow left (attempt + 1) last' b' w'
      ]

  pub request : RetryPolicy → String → Option Bool → CircuitBreaker → W → Reply × CircuitBreaker × W
  request p method override b w =
      rounds p (is_idempotent_method method) (allows p override) p.max_attempts 0 none b w
