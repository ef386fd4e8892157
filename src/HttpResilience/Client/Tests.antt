-- ===== src/HttpResilience/Client/Tests.antt =====
-- Requests in a small world, and the theorems at concrete inputs
-- (src/electripy/concurrency/http_resilience/services.py).
use electripy_ai.Prelude.{ℕ, ◌+◌, ◌≤◌, ◌≡◌, refl, true, false, none, some, [], ◌∷◌, inr, arith}
use electripy_ai.HttpResilience.Breaker.{closed, open_, CircuitBreaker}
use electripy_ai.HttpResilience.Breaker.Bounds.{IsValid}
use electripy_ai.HttpResilience.Retry.{
  ResponseData, is_success, is_idempotent_method, transient, RetryPolicy,
}
use electripy_ai.HttpResilience.Client.{
  PortResult, response, http_error, Env, ok, retry_exhausted_error, request,
}
use electripy_ai.HttpResilience.Client.Sends.{Counts, not_idempotent_sent_once}
use electripy_ai.HttpResilience.Client.Errors.{errors_retry_every_method}
use electripy_ai.HttpResilience.Client.Outcomes.{request_honest}

abbrev answer : ℕ → ResponseData
answer status = record { status_code = status; headers = []; body = []; url = "/"; elapsed = none }

-- The world is the number of requests sent; its clock stands at 7, and `sleep` does nothing.
abbrev world : PortResult → Env ℕ
world r = record {
  now = λ w. (7, w);
  send = λ w. (r, w + 1);
  sleep = λ delay w. w;
  uniform = λ low high. low;
  parse_float = λ raw. none;
}

world-Counts : (r : PortResult) → Counts (world r) (λ w. w)
world-Counts r = record {
  now_silent = λ w. refl;
  sleep_silent = λ delay w. refl;
  send_counts = λ w. refl;
}

abbrev policy : RetryPolicy
policy = record {
  max_attempts = 3;
  base_delay = 1;
  max_delay = 100;
  jitter_ratio = 20;
  retryable_status_codes = 429 ∷ 503 ∷ [];
  retryable_exceptions = λ e. elim e [ transient ↦ true | _ ↦ false ];
  honor_retry_after_header = true;
  allow_retry_non_idempotent = false;
}

abbrev breaker : CircuitBreaker
breaker = record {
  config = record {
    failure_threshold = 5;
    recovery_timeout = 30;
    half_open_max_calls = 1;
    half_open_success_threshold = 1;
  };
  state = closed;
  consecutive_failures = 0;
  last_state_change = 0;
  half_open_calls = 0;
  half_open_successes = 0;
}

methods :
    (is_idempotent_method "get" ≡ true)
    × (is_idempotent_method "POST" ≡ false)
    × (is_idempotent_method "BREW" ≡ false)
unfolding is_idempotent_method
methods = (refl, refl, refl)

not_idempotent_sent_once_example :
    (request (world (response (answer 503))) policy "POST" none breaker 0).2 ≤ 0 + 1
unfolding is_idempotent_method
not_idempotent_sent_once_example =
    not_idempotent_sent_once (world (response (answer 503))) (λ w. w)
      (world-Counts (response (answer 503))) (λ w e h. cc) policy "POST" none breaker 0 refl
      (inr (refl, refl))

-- The method is POST, and nobody allowed it to be retried.
errors_retry_every_method_example :
    ((request (world (http_error transient)) policy "POST" none breaker 0).0
      ≡ retry_exhausted_error none)
    × ((request (world (http_error transient)) policy "POST" none breaker 0).2 ≡ 0 + 3)
errors_retry_every_method_example =
    errors_retry_every_method (world (http_error transient)) (λ w. w)
      (world-Counts (http_error transient)) transient (λ w. refl) policy refl "POST" none breaker 0
      (omega arith) refl (omega arith)

request_honest_example :
    ((r : ResponseData)
      → (request (world (response (answer 200))) policy "GET" none breaker 0).0 ≡ ok r
      → is_success r ≡ true)
    × ((r : ResponseData)
        → (request (world (response (answer 200))) policy "GET" none breaker 0).0
          ≡ retry_exhausted_error (some r)
        → is_success r ≡ false)
request_honest_example = request_honest (world (response (answer 200))) policy "GET" none breaker 0

abbrev tripped : CircuitBreaker
tripped = record breaker { state = open_; last_state_change = 2 }

breaker-IsValid : IsValid breaker
breaker-IsValid = ground arith
