-- ===== src/LlmGateway/Client/Kept.antt =====
-- Properties of the world that the request loops of src/electripy/ai/llm_gateway/services.py keep.
use electripy_ai.Prelude.{
  ℕ, zero, suc, ◌+◌, inl, inr, String, Option, none, some, List, [], ◌∷◌, min, ltb, leb, Bool-cases,
}
use electripy_ai.LlmGateway.Domain.{
  system, StructuredOutputSpec, LlmRequest, clone_with_messages, GuardResult, LlmResponse,
  LlmGatewaySettings, ValidationError, LlmError,
}
use electripy_ai.LlmGateway.Validation.{build_structured_system_message}
use electripy_ai.LlmGateway.Client.{
  PortResult, response, rate_limited, transient, failure, Env, Outcome, ok, raise, Attempt, finish,
  stop, again, Round, done, repair, back_off, after_attempt, retry, call_with_retry,
  structured_round, structured_request, structured_loop, max_repairs, complete_structured, call,
  deliver, hook_response, respond, or_else,
}

module _ {W : Type 0} (env : Env W) where
  -- The property of the world survives the clock, the pauses, the call hook, and the sending of a
  -- request of the given kind.
  pub record Survives (P : W → Type 0) (Q : LlmRequest → Type 0) : Type 0 where
    pub now : (w : W) → P w → P (env.now w).1
    pub sleep : (n : ℕ) (w : W) → P w → P (env.sleep n w)
    pub hook :
        (request : LlmRequest) (r : LlmResponse) (n : ℕ) (w : W)
        → P w
        → P (env.on_llm_call request r n w)
    pub send : (request : LlmRequest) (w : W) → Q request → P w → P (env.send request w).1

module _ {W : Type 0} (env : Env W) (settings : LlmGatewaySettings) (P : W → Type 0)
    (Q : LlmRequest → Type 0) (s : Survives env P Q) where
  kept-back_off :
      (start delay pause : ℕ) (message : String) (w : W)
      → P w
      → P (back_off env settings start delay pause message w).1
  unfolding back_off
  kept-back_off start delay pause message w p =
      let policy = settings.retry_policy in
      let deadline = start + policy.total_timeout_seconds in
      let (now, w1) = env.now w in
      let sleep_for = min pause policy.max_backoff_seconds in
      elim (Bool-cases (leb deadline now)) [
        | inl late ↦ rw late (s.now w p)
        | inr early ↦ elim (Bool-cases (ltb deadline (now + sleep_for))) [
          | inl long ↦ rw (early, long) (s.now w p)
          | inr short ↦ rw (early, short) (s.sleep sleep_for w1 (s.now w p))
        ]
      ]

  pub kept-after_attempt :
      (start delay : ℕ) (r : PortResult) (w : W)
      → P w
      → P (after_attempt env settings start delay r w).1
  unfolding after_attempt
  kept-after_attempt start delay (response r) w p = p
  kept-after_attempt start delay (rate_limited message retry_after) w p =
      kept-back_off start delay (or_else retry_after delay) message w p
  kept-after_attempt start delay (transient message) w p =
      kept-back_off start delay delay message w p
  kept-after_attempt start delay failure w p = p

  kept-retry :
      (left attempts start delay : ℕ) (last : String) (request : LlmRequest) (w : W)
      → Q request
      → P w
      → P (retry env settings left attempts start delay last request w).1
  unfolding retry
  kept-retry zero attempts start delay last request w q p = p
  kept-retry (suc left) attempts start delay last request w q p =
      let (r, w1) = env.send request w in
      let (attempt, w2) = after_attempt env settings start delay r w1 in
      go attempt w2 (kept-after_attempt start delay r w1 (s.send request w q p))
        (λ delay' message v. kept-retry left (attempts + 1) start delay' message request v q)
    where
      go :
          (attempt : Attempt) (v : W)
          → P v
          → ((delay' : ℕ) (message : String) (v : W)
              → P v
              → P (retry env settings left (attempts + 1) start delay' message request v).1)
          → let ended : Outcome × W = elim attempt [
            | finish outcome ↦ (outcome, v)
            | stop message ↦ (raise (LlmError.retry_exhausted (attempts + 1) message), v)
            | again delay' message ↦
                retry env settings left (attempts + 1) start delay' message request v
          ] in
            P ended.1
      go (finish outcome) v pv rest = pv
      go (stop message) v pv rest = pv
      go (again delay' message) v pv rest = rest delay' message v pv

  kept-call_with_retry :
      (request : LlmRequest) (w : W)
      → Q request
      → P w
      → P (call_with_retry env settings request w).1
  unfolding call_with_retry
  kept-call_with_retry request w q p =
      let (start, w1) = env.now w in
      let policy = settings.retry_policy in
      kept-retry policy.max_attempts 0 start policy.initial_backoff_seconds "unknown error" request
        w1 q (s.now w p)

  module _ (spec : StructuredOutputSpec) (base : LlmRequest)
      (q : (text : String) → Q (clone_with_messages base (system text ∷ base.messages))) where
    kept-structured_loop :
        (left attempts : ℕ) (last_raw : Option String) (errors : List ValidationError) (w : W)
        → P w
        → P (structured_loop env settings spec left attempts last_raw errors base w).1
    unfolding structured_loop structured_request
    kept-structured_loop zero attempts last_raw errors w p = p
    kept-structured_loop (suc left) attempts last_raw errors w p =
        let request = structured_request env settings spec attempts last_raw base in
        let (outcome, w1) = call_with_retry env settings request w in
        go (structured_round env settings spec attempts outcome) w1
          (kept-call_with_retry request w
            (q (build_structured_system_message spec (ltb 0 attempts) last_raw)) p)
          (λ raw errors' v. kept-structured_loop left (attempts + 1) (some raw) errors' v)
      where
        go :
            (round : Round) (v : W)
            → P v
            → ((raw : String) (errors' : List ValidationError) (v : W)
                → P v
                → P
                    (structured_loop env settings spec left
                      (attempts + 1)
                      (some raw)
                      errors'
                      base
                      v).1)
            → let ended : Outcome × W = elim round [
              | done result ↦ (result, v)
              | repair raw errors' ↦
                  structured_loop env settings spec left (attempts + 1) (some raw) errors' base v
            ] in
              P ended.1
        go (done result) v pv rest = pv
        go (repair raw errors') v pv rest = rest raw errors' v pv

  pub kept-respond :
      (started_at : ℕ) (request : LlmRequest) (guard : Option GuardResult) (x : Outcome × W)
      → P x.1
      → P (respond env settings started_at request guard x).1
  unfolding respond deliver
  kept-respond started_at request guard (raise e, w) p = p
  kept-respond started_at request guard (ok r, w) p =
      go (hook_response settings.response_hook request r)
    where
      go : (o : Option LlmResponse) → P (deliver env settings started_at request guard o w).1
      go none = p
      go (some r) = s.hook request _ _ _ (s.now w p)

  module _ (base : LlmRequest) (plain : Q base)
      (with_system : (text : String)
        → Q (clone_with_messages base (system text ∷ base.messages))) where
    pub kept-call :
        (spec : Option StructuredOutputSpec) (w : W) → P w → P (call env settings spec base w).1
    unfolding call complete_structured
    kept-call none w p = kept-call_with_retry base w plain p
    kept-call (some spec) w p =
        kept-structured_loop spec base with_system (max_repairs env settings + 1) 0 none [] w p
