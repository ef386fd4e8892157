-- ===== src/HttpResilience/Client/Async.antt =====
-- `ResilientAsyncHttpClient` of src/electripy/concurrency/http_resilience/services.py: requests that run as
-- tasks of one event loop and share one breaker. A task gives way at `await` only, of the port and of
-- `sleep_fn`; what it does between two of these is one turn, and a schedule lists the tasks in the order
-- of their turns. `begin` hands a request to the port, `answer` is what it comes to when the task goes on.
pub mod Turns
pub mod Sent
pub mod Alone
mod Tests
use electripy_ai.Prelude.{
  ℕ, zero, suc, ◌+◌, String, Bool, true, false, Option, none, List, [], ◌∷◌, map, leb,
  if◌then◌else◌,
}
use electripy_ai.HttpResilience.Breaker.{CircuitBreaker}
use electripy_ai.HttpResilience.Retry.{ResponseData, is_idempotent_method, RetryPolicy}
use electripy_ai.HttpResilience.Client.{
  PortResult, Env, Reply, circuit_open_error, retry_exhausted_error, Verdict, finish, again,
  guarded_before, handle, allows,
}

-- Before `before_call`, in the await of the port, and after the end; the round and `last_response`.
pub data Stage : Type 0 where
  ready awaiting : ℕ → Option ResponseData → Stage
  ended : Reply → Stage

-- The arguments of a request that the loop reads.
pub record Call : Type 0 where
  pub method : String
  pub allow_retry_for_non_idempotent : Option Bool

pub record Task : Type 0 where
  pub call : Call
  pub stage : Stage

pub new_task : Call → Task
new_task call = record { call = call; stage = ready 0 none }

module _ {W : Type 0} where
  -- After `handle`; the task is in the await of `sleep_fn` where it goes on.
  pub settled : ℕ → Verdict × CircuitBreaker × W → Stage × CircuitBreaker × W
  settled attempt (finish reply, b, w) = (ended reply, b, w)
  settled attempt (again last, b, w) = (ready (attempt + 1) last, b, w)

  pub launched :
      (W → W) → ℕ → Option ResponseData → Bool × CircuitBreaker × W → Stage × CircuitBreaker × W
  launched begin attempt last (false, b, w) = (ended circuit_open_error, b, w)
  launched begin attempt last (true, b, w) = (awaiting attempt last, b, begin w)

module _ {W : Type 0} (env : Env W) (begin : W → W) (answer : W → PortResult × W)
    (p : RetryPolicy) where
  -- One turn of a task.
  pub resume : Call → Stage → CircuitBreaker → W → Stage × CircuitBreaker × W
  resume call (ready attempt last) b w =
      if leb p.max_attempts attempt
      then (ended (retry_exhausted_error last), b, w)
      else launched begin attempt last (guarded_before env b w)
  resume call (awaiting attempt last) b w = settled attempt (
      handle env p (is_idempotent_method call.method) (allows p call.allow_retry_for_non_idempotent)
        attempt last b (answer w))
  resume call (ended reply) b w = (ended reply, b, w)

  -- The turn of one task among several, which share the breaker.
  pub turn : ℕ → List Task → CircuitBreaker → W → List Task × CircuitBreaker × W
  turn i [] b w = ([], b, w)
  turn zero (t ∷ ts) b w =
      let (stage, b', w') = resume t.call t.stage b w in (record t { stage = stage } ∷ ts, b', w')
  turn (suc i) (t ∷ ts) b w = let (ts', b', w') = turn i ts b w in (t ∷ ts', b', w')

  pub turns : List ℕ → List Task → CircuitBreaker → W → List Task × CircuitBreaker × W
  turns [] ts b w = (ts, b, w)
  turns (i ∷ is) ts b w = let (ts', b', w') = turn i ts b w in turns is ts' b' w'

  -- Requests that start together, under a schedule.
  pub requests : List ℕ → List Call → CircuitBreaker → W → List Task × CircuitBreaker × W
  requests schedule calls b w = turns schedule (map new_task calls) b w
