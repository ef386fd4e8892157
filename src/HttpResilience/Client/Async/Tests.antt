-- ===== src/HttpResilience/Client/Async/Tests.antt =====
-- Requests that interleave in a small world (src/electripy/concurrency/http_resilience/services.py).
use electripy_ai.Prelude.{
  ℕ, ◌+◌, ◌*◌, ◌≤◌, ◌≡◌, refl, true, false, none, some, List, [], ◌∷◌, arith,
}
use electripy_ai.HttpResilience.Breaker.{closed, CircuitBreaker}
use electripy_ai.HttpResilience.Breaker.Bounds.{IsValid}
use electripy_ai.HttpResilience.Retry.{RetryPolicy}
use electripy_ai.HttpResilience.Client.{PortResult, response, crash, Env, Reply, request}
use electripy_ai.HttpResilience.Client.Async.{ended, Call, requests}
use electripy_ai.HttpResilience.Client.Async.Alone.{two_each, alone_as_synchronous}
use electripy_ai.HttpResilience.Client.Async.Turns.{stage_at, requests_end}
use electripy_ai.HttpResilience.Client.Async.Sent.{Ledger, requests_bounded}

-- The clock, which moves on by ten at each reading, the requests sent, and the answers to come.
record World : Type 0 where
  clock : ℕ
  sent : ℕ
  answers : List PortResult

abbrev next : List PortResult → World → PortResult × World
next [] w = (crash, w)
next (r ∷ rs) w = (r, record w { answers = rs })

abbrev begin : World → World
begin w = record w { sent = w.sent + 1 }

abbrev answer : World → PortResult × World
answer w = next w.answers w

abbrev env : Env World
env = record {
  now = λ w. (w.clock, record w { clock = w.clock + 10 });
  send = λ w. answer (begin w);
  sleep = λ delay w. w;
  uniform = λ low high. low;
  parse_float = λ raw. none;
}

abbrev with_status : ℕ → PortResult
with_status status =
    response (record { status_code = status; headers = []; body = []; url = "/"; elapsed = none })

abbrev policy : RetryPolicy
policy = record {
  max_attempts = 2;
  base_delay = 1;
  max_delay = 100;
  jitter_ratio = 0;
  retryable_status_codes = 503 ∷ [];
  retryable_exceptions = λ e. true;
  honor_retry_after_header = false;
  allow_retry_non_idempotent = false;
}

abbrev breaker : CircuitBreaker
breaker = record {
  config = record {
    failure_threshold = 1;
    recovery_timeout = 30;
    half_open_max_calls = 1;
    half_open_success_threshold = 1;
  };
  state = closed;
  consecutive_failures = 0;
  last_state_change = 0;
  half_open_calls = 0;
  half_open_successes = 0;
}

abbrev fetch : Call
fetch = record { method = "GET"; allow_retry_for_non_idempotent = none }

abbrev post : Call
post = record { method = "POST"; allow_retry_for_non_idempotent = none }

abbrev start : List PortResult → World
start answers = record { clock = 0; sent = 0; answers = answers }

next_silent : (rs : List PortResult) (w : World) → (next rs w).1.sent ≡ w.sent
next_silent [] w = refl
next_silent (r ∷ rs) w = refl

silent : (w : World) → (answer w).1.sent ≡ w.sent
silent w = next_silent w.answers w

ledger : Ledger env begin answer (λ w. w.sent)
ledger = record {
  now_silent = λ w. refl;
  sleep_silent = λ delay w. refl;
  answer_silent = silent;
  begin_counts = λ w. refl;
}

alone_as_synchronous_example :
    requests env begin answer policy
      (two_each 2)
      (fetch ∷ [])
      breaker
      (start (with_status 503 ∷ []))
    ≡ (let (reply, b', w') = request env policy "GET" none breaker (start (with_status 503 ∷ [])) in
        (record { call = fetch; stage = ended reply } ∷ [], b', w'))
alone_as_synchronous_example =
    alone_as_synchronous env begin answer (λ w. refl) policy fetch breaker
      (start (with_status 503 ∷ [])) (omega arith)

abbrev in_turn : List ℕ
in_turn = 0 ∷ 1 ∷ 1 ∷ 0 ∷ 0 ∷ 0 ∷ 1 ∷ 1 ∷ []

requests_end_example :
    (reply : Reply) × (stage_at 1
        (requests env begin answer policy in_turn (fetch ∷ post ∷ []) breaker (start [])).0
      ≡ some (ended reply))
requests_end_example =
    requests_end env begin answer policy in_turn (fetch ∷ post ∷ []) breaker (start []) 1
      (omega arith) (omega arith) (omega arith)

breaker-IsValid : IsValid breaker
breaker-IsValid = ground arith

requests_bounded_example :
    IsValid (requests env begin answer policy in_turn (fetch ∷ post ∷ []) breaker (start [])).1
    × ((requests env begin answer policy in_turn (fetch ∷ post ∷ []) breaker (start [])).2.sent
        ≤ 0 + 2 * 2)
requests_bounded_example =
    requests_bounded env begin answer (λ w. refl) (λ w. w.sent) ledger policy in_turn
      (fetch ∷ post ∷ []) breaker (start []) breaker-IsValid
