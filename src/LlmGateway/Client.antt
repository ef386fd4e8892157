-- ===== src/LlmGateway/Client.antt =====
-- `LlmGatewaySyncClient` of src/electripy/ai/llm_gateway/services.py. The clock, the port, `sleep` and
-- the call hook act on a world of the caller's choice; `parse_json` stands for `json.loads`. Log
-- messages are left out. A loop recurses on the attempts that are left.
pub mod Kept
pub mod Admission
pub mod Attempts
pub mod Structured
mod Tests
use Prim.Native.String
use Prim.Native.String.{◌++◌ as str_append}
use electripy_ai.Prelude.{
  ℕ, zero, suc, ◌+◌, ◌-◌, ◌*◌, String, Bool, true, false, not, Option, none, some, List, [], ◌∷◌,
  ◌++◌, min, ltb, leb, ◌==◌, if◌then◌else◌,
}
use electripy_ai.Prelude.Names.{Names, put}
use electripy_ai.Prelude.Json.{
  Json, null, true_json, false_json, int, float, str, array, object, Fields, no_fields, field,
}
use electripy_ai.LlmGateway.Domain.{
  LlmMessage, system, FieldType, str_type, int_type, float_type, bool_type, list_type, dict_type,
  StructuredOutputSpec, describe_for_prompt, LlmRequest, clone_with_messages, GuardResult, Note,
  prompt_guard, structured_output, LlmResponse, RetryPolicy, LlmGatewaySettings, ValidationError,
  json_parse_error, not_an_object, missing_field, wrong_type, LlmError, token_budget_exceeded,
  prompt_rejected, retry_exhausted, structured_output_error, port_error, hook_error,
}
use electripy_ai.LlmGateway.Validation.{
  has_type, value_of, field_errors, fields_errors, validate_structured_output, or_empty,
  build_structured_system_message, take_chars,
}
use text.Mathlib.Text.{◌==◌ as str_eq}

-- What the port does: a response, `RateLimitedError` or `TransientLlmError` with its text, or any
-- other exception.
pub data PortResult : Type 0 where
  response : LlmResponse → PortResult
  rate_limited : String → Option ℕ → PortResult
  transient : String → PortResult
  failure : PortResult

pub record Env (W : Type 0) : Type 0 where
  pub now : W → ℕ × W
  pub send : LlmRequest → W → PortResult × W
  pub sleep : ℕ → W → W
  pub on_llm_call : LlmRequest → LlmResponse → ℕ → W → W
  pub parse_json : String → Option Json

pub data Outcome : Type 0 where
  ok : LlmResponse → Outcome
  raise : LlmError → Outcome

pub count_input_chars : List LlmMessage → ℕ
count_input_chars [] = 0
count_input_chars (m ∷ ms) = Prim.Native.String.count m.content + count_input_chars ms

-- `a or b` for an optional number.
pub or_else : Option ℕ → ℕ → ℕ
or_else none default = default
or_else (some n) default = if n == 0 then default else n

pub max_input_chars_of : LlmGatewaySettings → LlmRequest → ℕ
max_input_chars_of settings request =
    or_else request.max_input_chars settings.default_max_input_chars

pub enforce_token_budget : LlmGatewaySettings → LlmRequest → Option LlmError
enforce_token_budget settings request =
    let current = count_input_chars request.messages in
    let most = max_input_chars_of settings request in
    if ltb most current then some (token_budget_exceeded current most) else none

-- `raised` is `PromptRejectedError`.
pub data Guarded : Type 0 where
  admitted : Option GuardResult → Guarded
  rejected : List String → Guarded

pub assessed : GuardResult → Guarded
assessed result = if not result.allowed then rejected result.reasons else admitted (some result)

pub maybe_guard : Option (List LlmMessage → GuardResult) → LlmRequest → Guarded
maybe_guard none request = admitted none
maybe_guard (some assess) request = assessed (assess request.messages)

-- How one attempt ends; `again` carries the next delay and the last error's message.
pub data Attempt : Type 0 where
  finish : Outcome → Attempt
  stop : String → Attempt
  again : ℕ → String → Attempt

-- How one round of the structured loop ends; `repair` carries the last output and its errors.
pub data Round : Type 0 where
  done : Outcome → Round
  repair : String → List ValidationError → Round

pub hook_response :
    Option (LlmRequest → LlmResponse → Option LlmResponse)
    → LlmRequest
    → LlmResponse
    → Option LlmResponse
hook_response none request r = some r
hook_response (some hook) request r = hook request r

pub hook_request : Option (LlmRequest → Option LlmRequest) → LlmRequest → Option LlmRequest
hook_request none request = some request
hook_request (some hook) request = hook request

module _ {W : Type 0} (env : Env W) (settings : LlmGatewaySettings) where
  -- After an error that is retried: `pause` is `sleep_for` before it is capped.
  pub back_off : ℕ → ℕ → ℕ → String → W → Attempt × W
  back_off start delay pause message w =
      let policy = settings.retry_policy in
      let deadline = start + policy.total_timeout_seconds in
      let (now, w1) = env.now w in
      let sleep_for = min pause policy.max_backoff_seconds in
      if leb deadline now
      then (stop message, w1)
      else if ltb deadline (now + sleep_for)
      then (stop message, w1)
      else (again (min (delay * 2) policy.max_backoff_seconds) message, env.sleep sleep_for w1)

  pub after_attempt : ℕ → ℕ → PortResult → W → Attempt × W
  after_attempt start delay (response r) w = (finish (ok r), w)
  after_attempt start delay (rate_limited message retry_after) w =
      back_off start delay (or_else retry_after delay) message w
  after_attempt start delay (transient message) w = back_off start delay delay message w
  after_attempt start delay failure w = (finish (raise port_error), w)

  -- The `while` loop: `left` is what `attempts` lacks of `max_attempts`.
  pub retry : ℕ → ℕ → ℕ → ℕ → String → LlmRequest → W → Outcome × W
  retry zero attempts start delay last request w = (raise (retry_exhausted attempts last), w)
  retry (suc left) attempts start delay last request w =
      let (r, w1) = env.send request w in
      let (attempt, w2) = after_attempt start delay r w1 in
      elim attempt [
        | finish outcome ↦ (outcome, w2)
        | stop message ↦ (raise (retry_exhausted (attempts + 1) message), w2)
        | again delay' message ↦ retry left (attempts + 1) start delay' message request w2
      ]

  pub call_with_retry : LlmRequest → W → Outcome × W
  call_with_retry request w =
      let (start, w1) = env.now w in
      let policy = settings.retry_policy in
      retry policy.max_attempts 0 start policy.initial_backoff_seconds "unknown error" request w1

  pub validated : StructuredOutputSpec → ℕ → LlmResponse → Json → List ValidationError → Round
  validated spec attempts r parsed [] = done (
      ok (record r {
        raw_json = some parsed;
        metadata =
            put "structured_output" (structured_output spec.name (attempts + 1) true) r.metadata;
      }))
  validated spec attempts r parsed (e ∷ es) = repair r.text (e ∷ es)

  pub parsed_round : StructuredOutputSpec → ℕ → LlmResponse → Option Json → Round
  parsed_round spec attempts r none = repair r.text (json_parse_error ∷ [])
  parsed_round spec attempts r (some parsed) =
      validated spec attempts r parsed (validate_structured_output parsed spec)

  pub structured_round : StructuredOutputSpec → ℕ → Outcome → Round
  structured_round spec attempts (raise e) = done (raise e)
  structured_round spec attempts (ok r) = parsed_round spec attempts r (env.parse_json r.text)

  pub structured_request : StructuredOutputSpec → ℕ → Option String → LlmRequest → LlmRequest
  structured_request spec attempts last_raw base =
      let message = build_structured_system_message spec (ltb 0 attempts) last_raw in
      clone_with_messages base (system message ∷ base.messages)

  -- The `while` loop: `left` is what `attempts` lacks of `max_repairs + 1`.
  pub structured_loop :
      StructuredOutputSpec
      → ℕ
      → ℕ
      → Option String
      → List ValidationError
      → LlmRequest
      → W
      → Outcome × W
  structured_loop spec zero attempts last_raw errors base w =
      (raise (structured_output_error (take_chars 500 (or_empty last_raw)) errors), w)
  structured_loop spec (suc left) attempts last_raw errors base w =
      let (outcome, w1) = call_with_retry (structured_request spec attempts last_raw base) w in
      elim (structured_round spec attempts outcome) [
        | done result ↦ (result, w1)
        | repair raw errors' ↦ structured_loop spec left (attempts + 1) (some raw) errors' base w1
      ]

  pub max_repairs : ℕ
  max_repairs = let n = settings.structured_output_max_repair_attempts in if ltb n 1 then 1 else n

  pub complete_structured : LlmRequest → StructuredOutputSpec → W → Outcome × W
  complete_structured base spec w = structured_loop spec (max_repairs + 1) 0 none [] base w

  pub call : Option StructuredOutputSpec → LlmRequest → W → Outcome × W
  call none request w = call_with_retry request w
  call (some spec) request w = complete_structured request spec w

  pub noted : Option GuardResult → LlmResponse → LlmResponse
  noted none r = r
  noted (some g) r = record r { metadata = put "prompt_guard" (prompt_guard g) r.metadata }

  -- From the response hook's result on.
  pub deliver : ℕ → LlmRequest → Option GuardResult → Option LlmResponse → W → Outcome × W
  deliver started_at request guard none w = (raise hook_error, w)
  deliver started_at request guard (some r) w =
      let (now, w1) = env.now w in
      let final = noted guard r in (ok final, env.on_llm_call request final (now - started_at) w1)

  pub respond : ℕ → LlmRequest → Option GuardResult → Outcome × W → Outcome × W
  respond started_at request guard (raise e, w) = (raise e, w)
  respond started_at request guard (ok r, w) =
      deliver started_at request guard (hook_response settings.response_hook request r) w

  pub guarded : ℕ → Option StructuredOutputSpec → LlmRequest → Guarded → W → Outcome × W
  guarded started_at spec request (rejected reasons) w = (raise (prompt_rejected reasons), w)
  guarded started_at spec request (admitted result) w =
      respond started_at request result (call spec request w)

  pub budgeted : ℕ → Option StructuredOutputSpec → LlmRequest → Option LlmError → W → Outcome × W
  budgeted started_at spec request (some e) w = (raise e, w)
  budgeted started_at spec request none w =
      guarded started_at spec request (maybe_guard settings.prompt_guard request) w

  pub hooked : ℕ → Option StructuredOutputSpec → Option LlmRequest → W → Outcome × W
  hooked started_at spec none w = (raise hook_error, w)
  hooked started_at spec (some request) w =
      budgeted started_at spec request (enforce_token_budget settings request) w

  pub complete : Option StructuredOutputSpec → LlmRequest → W → Outcome × W
  complete spec request w =
      let (started_at, w1) = env.now w in
      hooked started_at spec (hook_request settings.request_hook request) w1
