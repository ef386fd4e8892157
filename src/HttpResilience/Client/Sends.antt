-- ===== src/HttpResilience/Client/Sends.antt =====
-- How often a request is sent (src/electripy/concurrency/http_resilience/services.py).
use electripy_ai.Prelude.{
  ℕ, zero, suc, ◌+◌, ◌≤◌, ◌≡◌, ◌≢◌, String, Bool, true, false, Option, none, some, ◌⊎◌, inl, inr,
  refl, arith, if◌then◌else◌,
}
use electripy_ai.HttpResilience.Breaker.{CircuitBreaker}
use electripy_ai.HttpResilience.Retry.{ResponseData, is_idempotent_method, HttpError, RetryPolicy}
use electripy_ai.HttpResilience.Client.{
  PortResult, response, http_error, crash, Env, Reply, Verdict, finish, again, guarded_before,
  report, wait, handle, admitted_round, round, rounds, request,
}

-- A count of the requests sent so far, kept by the world.
pub record Counts {W : Type 0} (env : Env W) (sent : W → ℕ) : Type 0 where
  pub now_silent : (w : W) → sent (env.now w).1 ≡ sent w
  pub sleep_silent : (delay : ℕ) (w : W) → sent (env.sleep delay w) ≡ sent w
  pub send_counts : (w : W) → sent (env.send w).1 ≡ sent w + 1

pub Verdict-cases :
    (v : Verdict)
    → ((reply : Reply) × (v ≡ finish reply)) ⊎ ((l : Option ResponseData) × (v ≡ again l))
Verdict-cases (finish reply) = inl (reply, refl)
Verdict-cases (again l) = inr (l, refl)

module _ {W : Type 0} (env : Env W) (sent : W → ℕ) (counts : Counts env sent) where
  pub sent-guarded_before : (b : CircuitBreaker) (w : W) → sent (guarded_before env b w).2 ≡ sent w
  unfolding guarded_before
  sent-guarded_before b w = ground (arith, counts.now_silent w, counts.now_silent (env.now w).1)

  sent-report :
      (success : Bool) (b : CircuitBreaker) (w : W) → sent (report env success b w).1 ≡ sent w
  unfolding report
  sent-report success b w = ground (arith, counts.now_silent w, counts.now_silent (env.now w).1)

  sent-wait :
      (p : RetryPolicy) (attempt : ℕ) (last : Option ResponseData) (w : W)
      → sent (wait env p attempt last w) ≡ sent w
  unfolding wait
  sent-wait p attempt last w = counts.sleep_silent _ w

  pub sent-handle :
      (p : RetryPolicy) (i a : Bool) (attempt : ℕ) (last : Option ResponseData) (b : CircuitBreaker)
      (r : PortResult) (w : W)
      → sent (handle env p i a attempt last b (r, w)).2 ≡ sent w
  unfolding handle
  sent-handle p i a attempt last b crash w = ground arith
  sent-handle p i a attempt last b (http_error e) w =
      ground (arith, sent-report false b w, sent-wait p attempt none (report env false b w).1)
  sent-handle p i a attempt last b (response r) w = ground (
    arith,
    sent-report true b w,
    sent-report false b w,
    sent-wait p attempt (some r) (report env false b w).1,
  )

  sent-admitted_round :
      (p : RetryPolicy) (i a : Bool) (attempt : ℕ) (last : Option ResponseData) (allowed : Bool)
      (b : CircuitBreaker) (w : W)
      → sent (admitted_round env p i a attempt last (allowed, b, w)).2
        ≡ sent w + (if allowed then 1 else 0)
  unfolding admitted_round
  sent-admitted_round p i a attempt last false b w = ground arith
  sent-admitted_round p i a attempt last true b w =
      let (r, w') = env.send w in
      ground (arith, sent-handle p i a attempt last b r w', counts.send_counts w)

  pub sent-round :
      (p : RetryPolicy) (i a : Bool) (attempt : ℕ) (last : Option ResponseData) (b : CircuitBreaker)
      (w : W)
      → sent (round env p i a attempt last b w).2
        ≡ sent w + (if (guarded_before env b w).0 then 1 else 0)
  unfolding round
  sent-round p i a attempt last b w =
      let (allowed, b', w') = guarded_before env b w in
      ground (arith, sent-guarded_before b w, sent-admitted_round p i a attempt last allowed b' w')

  sent-rounds :
      (p : RetryPolicy) (i a : Bool) (left attempt : ℕ) (last : Option ResponseData)
      (b : CircuitBreaker) (w : W)
      → sent (rounds env p i a left attempt last b w).2 ≤ sent w + left
  unfolding rounds
  sent-rounds p i a zero attempt last b w = ground arith
  sent-rounds p i a (suc left) attempt last b w =
      let (v, b', w') = round env p i a attempt last b w in
      elim (Verdict-cases v) [
        | inl (reply, e) ↦ ground (arith, sent-round p i a attempt last b w)
        | inr (l, e) ↦
            ground (
              arith,
              sent-round p i a attempt last b w,
              sent-rounds p i a left (attempt + 1) l b' w',
            )
      ]

  -- In a world that counts what is sent: a request is sent at most `max_attempts` times, whatever
  -- the port, the clock and the breaker do.
  sent-request-le :
      (p : RetryPolicy) (method : String) (override : Option Bool) (b : CircuitBreaker) (w : W)
      → sent (request env p method override b w).2 ≤ sent w + p.max_attempts
  unfolding request
  sent-request-le p method override b w = sent-rounds p _ _ p.max_attempts 0 none b w

  module _ (no_error : (w : W) (e : HttpError) → (env.send w).0 ≢ http_error e) where
    handle_answered :
        (p : RetryPolicy) (attempt : ℕ) (last l : Option ResponseData) (b : CircuitBreaker)
        (r : PortResult) (w : W)
        → ((e : HttpError) → r ≢ http_error e)
        → (handle env p false false attempt last b (r, w)).0 ≢ again l
    unfolding handle
    handle_answered p attempt last l b (http_error e) w h = absurd (h e refl)
    handle_answered p attempt last l b crash w h = ground arith
    handle_answered p attempt last l b (response r) w h = ground arith

    answered_once :
        (p : RetryPolicy) (attempt : ℕ) (last l : Option ResponseData) (b : CircuitBreaker) (w : W)
        → (round env p false false attempt last b w).0 ≢ again l
    unfolding round admitted_round
    answered_once p attempt last l b w =
        let (allowed, b', w') = guarded_before env b w in
        let (r, w'') = env.send w' in
        ground (arith, handle_answered p attempt last l b' r w'' (no_error w'))

    answered_rounds :
        (p : RetryPolicy) (left : ℕ) (b : CircuitBreaker) (w : W)
        → sent (rounds env p false false left 0 none b w).2 ≤ sent w + 1
    unfolding rounds
    answered_rounds p zero b w = omega arith
    answered_rounds p (suc left) b w =
        let (v, b', w') = round env p false false 0 none b w in
        elim (Verdict-cases v) [
          | inl (reply, e) ↦ ground (arith, sent-round p false false 0 none b w)
          | inr (l, e) ↦ absurd (answered_once p 0 none l b w e)
        ]

    -- In a world that counts what is sent, with a port that never raises an `HttpClientError`: a
    -- request whose method is not idempotent, where neither the policy nor the call allows such a
    -- method to be retried, is sent at most once.
    pub not_idempotent_sent_once :
        (p : RetryPolicy) (method : String) (override : Option Bool) (b : CircuitBreaker) (w : W)
        → is_idempotent_method method ≡ false
        → (override ≡ some false) ⊎ ((override ≡ none) × (p.allow_retry_non_idempotent ≡ false))
        → sent (request env p method override b w).2 ≤ sent w + 1
    unfolding request
    not_idempotent_sent_once p method override b w i h =
        ground (arith, answered_rounds p p.max_attempts b w)
