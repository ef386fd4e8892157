-- ===== src/HttpResilience/Client/Async/Sent.antt =====
-- What requests that interleave leave of the breaker, and how many they send
-- (src/electripy/concurrency/http_resilience/services.py).
use electripy_ai.Prelude.{
  ℕ, zero, suc, ◌+◌, ◌-◌, ◌*◌, ◌≤◌, ◌<◌, ◌≡◌, ap, ◌∙◌, Bool, true, false, Option, List, [], ◌∷◌,
  map, length, arith, leb, by_cases,
}
use electripy_ai.HttpResilience.Breaker.{CircuitBreaker}
use electripy_ai.HttpResilience.Breaker.Bounds.{IsValid, before_call-IsValid}
use electripy_ai.HttpResilience.Retry.{ResponseData, is_idempotent_method, RetryPolicy}
use electripy_ai.HttpResilience.Client.{
  PortResult, Env, Verdict, finish, again, guarded_before, handle, allows,
}
use electripy_ai.HttpResilience.Client.Sends.{Counts, sent-handle, sent-guarded_before}
use electripy_ai.HttpResilience.Client.Outcomes.{handle-IsValid}
use electripy_ai.HttpResilience.Client.Async.{
  Stage, ready, awaiting, ended, Call, Task, new_task, settled, launched, resume, turn, turns,
  requests,
}

-- The requests that a stage may send yet, and those of all tasks.
abbrev due : RetryPolicy → Stage → ℕ
due p (ready attempt last) = p.max_attempts - attempt
due p (awaiting attempt last) = p.max_attempts - attempt - 1
due p (ended reply) = 0

abbrev due_all : RetryPolicy → List Task → ℕ
due_all p [] = 0
due_all p (t ∷ ts) = due p t.stage + due_all p ts

-- The world keeps a count of the requests that it was handed.
pub record Ledger {W : Type 0} (env : Env W) (begin : W → W) (answer : W → PortResult × W)
    (sent : W → ℕ) : Type 0 where
  pub now_silent : (w : W) → sent (env.now w).1 ≡ sent w
  pub sleep_silent : (delay : ℕ) (w : W) → sent (env.sleep delay w) ≡ sent w
  pub answer_silent : (w : W) → sent (answer w).1 ≡ sent w
  pub begin_counts : (w : W) → sent (begin w) ≡ sent w + 1

module _ {W : Type 0} (env : Env W) (begin : W → W) (answer : W → PortResult × W)
    (joined : (w : W) → env.send w ≡ answer (begin w)) (sent : W → ℕ)
    (ledger : Ledger env begin answer sent) (p : RetryPolicy) where
  counts : Counts env sent
  counts = record {
    now_silent = ledger.now_silent;
    sleep_silent = ledger.sleep_silent;
    send_counts =
        λ w. ap (λ r. sent r.1) (joined w) ∙ ledger.answer_silent (begin w) ∙ ledger.begin_counts w;
  }

  -- What a turn that found `n` sent and `d` due may leave.
  Fine : ℕ → ℕ → Stage × CircuitBreaker × W → Type 0
  Fine n d after = IsValid after.1 × (sent after.2 + due p after.0 ≤ n + d)

  launched-Fine :
      (attempt : ℕ) (last : Option ResponseData) (g : Bool × CircuitBreaker × W)
      → attempt < p.max_attempts
      → IsValid g.1
      → Fine (sent g.2) (p.max_attempts - attempt) (launched begin attempt last g)
  unfolding launched Fine
  launched-Fine attempt last (false, b, w) h v = (v, omega arith)
  launched-Fine attempt last (true, b, w) h v = (v, omega (arith, h, ledger.begin_counts w))

  settled-Fine :
      (attempt : ℕ) (n : ℕ) (v : Verdict) (b : CircuitBreaker) (w : W)
      → IsValid b
      → sent w ≡ n
      → Fine n (p.max_attempts - attempt - 1) (settled attempt (v, b, w))
  unfolding settled Fine
  settled-Fine attempt n (finish reply) b w valid e = (valid, omega (arith, e))
  settled-Fine attempt n (again l) b w valid e = (valid, omega (arith, e))

  guarded_before-IsValid :
      (b : CircuitBreaker) (w : W) → IsValid b → IsValid (guarded_before env b w).1
  unfolding guarded_before
  guarded_before-IsValid b w v = before_call-IsValid (env.now w).0 b v

  resume-Fine :
      (call : Call) (s : Stage) (b : CircuitBreaker) (w : W)
      → IsValid b
      → Fine (sent w) (due p s) (resume env begin answer p call s b w)
  unfolding resume Fine
  resume-Fine call (ready attempt last) b w v =
      let g = guarded_before env b w in
      let silent = sent-guarded_before env sent counts b w in
      by_cases (Fine (sent w) (p.max_attempts - attempt)) (leb p.max_attempts attempt)
        (λ _. (v, omega arith))
        (λ more.
          let (valid, less) =
            launched-Fine attempt last g (ground (arith, more)) (guarded_before-IsValid b w v) in
          (valid, omega (arith, less, silent)))
  resume-Fine call (awaiting attempt last) b w v =
      let (r, w') = answer w in
      let i = is_idempotent_method call.method in
      let a = allows p call.allow_retry_for_non_idempotent in
      let (verdict, b', w'') = handle env p i a attempt last b (r, w') in
      settled-Fine attempt (sent w) verdict b' w'' (handle-IsValid env p i a attempt last b r w' v)
        (sent-handle env sent counts p i a attempt last b r w' ∙ ledger.answer_silent w)
  resume-Fine call (ended reply) b w v = (v, omega arith)

  turn-Fine :
      (j : ℕ) (ts : List Task) (b : CircuitBreaker) (w : W)
      → IsValid b
      → (let (ts', b', w') = turn env begin answer p j ts b w in
          IsValid b' × (sent w' + due_all p ts' ≤ sent w + due_all p ts))
  unfolding turn Fine
  turn-Fine j [] b w v = (v, omega arith)
  turn-Fine zero (t ∷ ts) b w v =
      let (valid, less) = resume-Fine t.call t.stage b w v in (valid, omega (arith, less))
  turn-Fine (suc j) (t ∷ ts) b w v =
      let (valid, less) = turn-Fine j ts b w v in (valid, omega (arith, less))

  turns-Fine :
      (schedule : List ℕ) (ts : List Task) (b : CircuitBreaker) (w : W)
      → IsValid b
      → (let (ts', b', w') = turns env begin answer p schedule ts b w in
          IsValid b' × (sent w' + due_all p ts' ≤ sent w + due_all p ts))
  unfolding turns
  turns-Fine [] ts b w v = (v, omega arith)
  turns-Fine (j ∷ js) ts b w v =
      let (ts', b', w') = turn env begin answer p j ts b w in
      let (valid, less) = turn-Fine j ts b w v in
      let (valids, rest) = turns-Fine js ts' b' w' valid in (valids, omega (arith, less, rest))

  due-new : (calls : List Call) → due_all p (map new_task calls) ≡ length calls * p.max_attempts
  unfolding new_task
  due-new [] = grind arith
  due-new (c ∷ cs) = grind (arith, due-new cs)

  -- In a world that counts the requests handed to the port, whose synchronous `send` is to begin a request and
  -- take its answer: however requests that share a breaker interleave, they send together at most
  -- `max_attempts` for each of them, and keep the counters of the breaker within their bounds.
  pub requests_bounded :
      (schedule : List ℕ) (calls : List Call) (b : CircuitBreaker) (w : W)
      → IsValid b
      → IsValid (requests env begin answer p schedule calls b w).1
        × (sent (requests env begin answer p schedule calls b w).2
            ≤ sent w + length calls * p.max_attempts)
  unfolding requests
  requests_bounded schedule calls b w v =
      let (valid, less) = turns-Fine schedule (map new_task calls) b w v in
      (valid, omega (arith, less, due-new calls))
