-- ===== src/LlmGateway/Client/Attempts.antt =====
-- How often the port is called (src/electripy/ai/llm_gateway/services.py).
use native.Mathlib.Nat.{suc-mul}
use electripy_ai.Prelude.{
  ℕ, zero, suc, ◌+◌, ◌*◌, ◌≤◌, ◌≡◌, refl, ◌∙◌, String, Option, none, some, List, [], arith,
}
use electripy_ai.LlmGateway.Domain.{
  StructuredOutputSpec, LlmRequest, LlmResponse, LlmGatewaySettings, ValidationError, LlmError,
}
use electripy_ai.LlmGateway.Client.{
  Env, Outcome, raise, Attempt, finish, stop, again, Round, done, repair, after_attempt, retry,
  call_with_retry, structured_round, structured_request, structured_loop, max_repairs,
  complete_structured, call, enforce_token_budget, maybe_guard, Guarded, admitted, rejected,
  guarded, budgeted, hook_request, hooked, complete,
}
use electripy_ai.LlmGateway.Client.Kept.{Survives, kept-after_attempt, kept-respond}

module _ {W : Type 0} (env : Env W) (settings : LlmGatewaySettings) where
  -- The most that a completion may send.
  abbrev pub most : Option StructuredOutputSpec → ℕ
  most none = settings.retry_policy.max_attempts
  most (some spec) = (max_repairs env settings + 1) * settings.retry_policy.max_attempts

module _ {W : Type 0} (env : Env W) (settings : LlmGatewaySettings) (count : W → ℕ) where
  -- The world counts the requests that are sent, and nothing else changes the count.
  pub record Counts : Type 0 where
    pub now : (w : W) → count (env.now w).1 ≡ count w
    pub sleep : (n : ℕ) (w : W) → count (env.sleep n w) ≡ count w
    pub hook :
        (request : LlmRequest) (r : LlmResponse) (n : ℕ) (w : W)
        → count (env.on_llm_call request r n w) ≡ count w
    pub send : (request : LlmRequest) (w : W) → count (env.send request w).1 ≡ count w + 1

  module _ (c : Counts) where
    -- Between two sends the count stays.
    still : (n : ℕ) → Survives env (λ w. count w ≡ n) (λ request. ⊥)
    still n = record {
      now = λ w h. c.now w ∙ h;
      sleep = λ k w h. c.sleep k w ∙ h;
      hook = λ request r k w h. c.hook request r k w ∙ h;
      send = λ request w q h. absurd q;
    }

    count-retry :
        (left attempts start delay : ℕ) (last : String) (request : LlmRequest) (w : W)
        → count (retry env settings left attempts start delay last request w).1 ≤ count w + left
    unfolding retry
    count-retry zero attempts start delay last request w = omega arith
    count-retry (suc left) attempts start delay last request w =
        let (r, w1) = env.send request w in
        let (attempt, w2) = after_attempt env settings start delay r w1 in
        go attempt w2
          (kept-after_attempt env settings (λ v. count v ≡ count w + 1) (λ q. ⊥)
            (still (count w + 1)) start delay r w1 (c.send request w))
          (λ delay' message v. count-retry left (attempts + 1) start delay' message request v)
      where
        go :
            (attempt : Attempt) (v : W)
            → count v ≡ count w + 1
            → ((delay' : ℕ) (message : String) (v : W)
                → count (retry env settings left (attempts + 1) start delay' message request v).1
                  ≤ count v + left)
            → let ended : Outcome × W = elim attempt [
              | finish outcome ↦ (outcome, v)
              | stop message ↦ (raise (LlmError.retry_exhausted (attempts + 1) message), v)
              | again delay' message ↦
                  retry env settings left (attempts + 1) start delay' message request v
            ] in
              count ended.1 ≤ count w + suc left
        go (finish outcome) v h rest = omega (arith, h)
        go (stop message) v h rest = omega (arith, h)
        go (again delay' message) v h rest = omega (arith, h, rest delay' message v)

    count-call_with_retry :
        (request : LlmRequest) (w : W)
        → count (call_with_retry env settings request w).1
          ≤ count w + settings.retry_policy.max_attempts
    unfolding call_with_retry
    count-call_with_retry request w =
        let (start, w1) = env.now w in
        let policy = settings.retry_policy in
        omega (
          arith,
          c.now w,
          count-retry policy.max_attempts 0 start policy.initial_backoff_seconds "unknown error"
              request w1,
        )

    count-structured_loop :
        (spec : StructuredOutputSpec) (left attempts : ℕ) (last_raw : Option String)
        (errors : List ValidationError) (base : LlmRequest) (w : W)
        → count (structured_loop env settings spec left attempts last_raw errors base w).1
          ≤ count w + left * settings.retry_policy.max_attempts
    unfolding structured_loop
    count-structured_loop spec zero attempts last_raw errors base w = omega arith
    count-structured_loop spec (suc left) attempts last_raw errors base w =
        let request = structured_request env settings spec attempts last_raw base in
        let (outcome, w1) = call_with_retry env settings request w in
        go (structured_round env settings spec attempts outcome) w1
          (count-call_with_retry request w)
          (λ raw errors' v.
            count-structured_loop spec left (attempts + 1) (some raw) errors' base v)
      where
        go :
            (round : Round) (v : W)
            → count v ≤ count w + settings.retry_policy.max_attempts
            → ((raw : String) (errors' : List ValidationError) (v : W)
                → count
                    (structured_loop env settings spec left
                      (attempts + 1)
                      (some raw)
                      errors'
                      base
                      v).1
                  ≤ count v + left * settings.retry_policy.max_attempts)
            → let ended : Outcome × W = elim round [
              | done result ↦ (result, v)
              | repair raw errors' ↦
                  structured_loop env settings spec left (attempts + 1) (some raw) errors' base v
            ] in
              count ended.1 ≤ count w + suc left * settings.retry_policy.max_attempts
        go (done result) v h rest =
            omega (arith, h, suc-mul left settings.retry_policy.max_attempts)
        go (repair raw errors') v h rest =
            omega (arith, h, rest raw errors' v, suc-mul left settings.retry_policy.max_attempts)

    count-call :
        (spec : Option StructuredOutputSpec) (request : LlmRequest) (w : W)
        → count (call env settings spec request w).1 ≤ count w + most env settings spec
    unfolding call complete_structured
    count-call none request w = count-call_with_retry request w
    count-call (some spec) request w =
        count-structured_loop spec (max_repairs env settings + 1) 0 none [] request w

    count-guarded :
        (started_at : ℕ) (spec : Option StructuredOutputSpec) (request : LlmRequest) (g : Guarded)
        (w : W)
        → count (guarded env settings started_at spec request g w).1
          ≤ count w + most env settings spec
    unfolding guarded
    count-guarded started_at spec request (rejected reasons) w = omega arith
    count-guarded started_at spec request (admitted result) w =
        let x = call env settings spec request w in
        omega (
          arith,
          count-call spec request w,
          kept-respond env settings (λ v. count v ≡ count x.1) (λ q. ⊥) (still (count x.1))
              started_at request result x refl,
        )

    count-budgeted :
        (started_at : ℕ) (spec : Option StructuredOutputSpec) (request : LlmRequest)
        (e : Option LlmError) (w : W)
        → count (budgeted env settings started_at spec request e w).1
          ≤ count w + most env settings spec
    unfolding budgeted
    count-budgeted started_at spec request (some e) w = omega arith
    count-budgeted started_at spec request none w =
        count-guarded started_at spec request (maybe_guard settings.prompt_guard request) w

    count-hooked :
        (started_at : ℕ) (spec : Option StructuredOutputSpec) (request : Option LlmRequest) (w : W)
        → count (hooked env settings started_at spec request w).1 ≤ count w + most env settings spec
    unfolding hooked
    count-hooked started_at spec none w = omega arith
    count-hooked started_at spec (some request) w =
        count-budgeted started_at spec request (enforce_token_budget settings request) w

-- In a world that counts what is sent: a completion ends with at most `max_attempts` requests sent, or
-- in structured mode at most that number for the first output and for each repair, of which there is
-- at least one.
pub complete_bounded :
    {W : Type 0} (env : Env W) (settings : LlmGatewaySettings) (count : W → ℕ)
    (spec : Option StructuredOutputSpec) (request : LlmRequest) (w : W)
    → Counts env settings count
    → count (complete env settings spec request w).1 ≤ count w + most env settings spec
unfolding complete
complete_bounded env settings count spec request w c =
    let (started_at, w1) = env.now w in
    omega (
      arith,
      c.now w,
      count-hooked env settings count c started_at spec (hook_request settings.request_hook request)
          w1,
    )
