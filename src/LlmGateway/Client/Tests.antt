-- ===== src/LlmGateway/Client/Tests.antt =====
-- Concrete completions of src/electripy/ai/llm_gateway/services.py.
use electripy_ai.Prelude.{
  ℕ, ◌+◌, ◌≤◌, ◌≡◌, refl, true, none, some, List, [], ◌∷◌, All, length, arith,
}
use electripy_ai.Prelude.Names.{put}
use electripy_ai.Prelude.Json.{Json, int, object, no_fields, field}
use electripy_ai.LlmGateway.Domain.{
  user_role, LlmRequest, LlmResponse, LlmGatewaySettings, int_type, str_type, StructuredOutputSpec,
  system, clone_with_messages, structured_output, prompt_guard,
}
use electripy_ai.LlmGateway.Validation.{
  has_type, value_of, field_errors, fields_errors, validate_structured_output, or_empty, take_chars,
}
use electripy_ai.LlmGateway.Client.{
  Env, response, rate_limited, count_input_chars, or_else, max_input_chars_of, enforce_token_budget,
  maybe_guard, assessed, back_off, after_attempt, retry, call_with_retry, validated, parsed_round,
  structured_round, structured_request, structured_loop, max_repairs, complete_structured, call,
  noted, deliver, hook_response, respond, guarded, budgeted, hook_request, hooked, complete,
}
use electripy_ai.LlmGateway.Client.Kept.{Survives}
use electripy_ai.LlmGateway.Client.Admission.{Sendable, complete_admitted}
use electripy_ai.LlmGateway.Client.Attempts.{Counts, most, complete_bounded}
use electripy_ai.LlmGateway.Client.Structured.{Faithful, complete-Faithful}

program : Unit {0}
unfolding put system clone_with_messages count_input_chars or_else max_input_chars_of
    enforce_token_budget maybe_guard assessed has_type value_of field_errors fields_errors
    validate_structured_output or_empty take_chars back_off after_attempt retry call_with_retry
    validated parsed_round structured_round structured_request structured_loop max_repairs
    complete_structured call noted deliver hook_response respond guarded budgeted hook_request
    hooked complete
program = tt

abbrev hello : LlmRequest
hello = record {
  model = "m";
  messages = record { role = user_role; content = "hello" } ∷ [];
  temperature = 20;
  max_output_tokens = none;
  max_input_chars = none;
  metadata = none;
}

abbrev settings : ℕ → LlmGatewaySettings
settings chars = record {
  retry_policy = record {
    max_attempts = 3;
    initial_backoff_seconds = 1;
    max_backoff_seconds = 4;
    total_timeout_seconds = 60;
  };
  default_max_input_chars = chars;
  prompt_guard = some (λ messages. record { allowed = true; score = none; reasons = [] });
  structured_output_max_repair_attempts = 0;
  request_hook = none;
  response_hook = none;
}

abbrev answer : LlmResponse
answer = record {
  text = "answer";
  raw_json = none;
  usage_total_tokens = none;
  finish_reason = none;
  request_id = none;
  model = none;
  metadata = [];
}

abbrev one_field : Json
one_field = object (field "a" (int "1") no_fields)

-- The world is the requests sent, the last one first; the port answers, or asks for a pause.
abbrev answering : Env (List LlmRequest)
answering = record {
  now = λ w. (7, w);
  send = λ q w. (response answer, q ∷ w);
  sleep = λ n w. w;
  on_llm_call = λ q r n w. w;
  parse_json = λ text. some one_field;
}

abbrev limiting : Env (List LlmRequest)
limiting = record answering { send = λ q w. (rate_limited "slow" none, q ∷ w) }

abbrev spec : StructuredOutputSpec
spec = record { name = "s"; field_types = ("a", int_type) ∷ []; description = none }

abbrev unmet : StructuredOutputSpec
unmet = record { name = "s"; field_types = ("a", str_type) ∷ []; description = none }

abbrev AllSendable : List LlmRequest → Type 0
AllSendable w = All (Sendable (settings 9) hello) w

answering-Survives : Survives answering AllSendable (Sendable (settings 9) hello)
answering-Survives = record {
  now = λ w h. h;
  sleep = λ n w h. h;
  hook = λ q r n w h. h;
  send = λ q w s h. (s, h);
}

complete_admitted_example : AllSendable (complete answering (settings 9) none hello []).1
complete_admitted_example =
    complete_admitted answering (settings 9) AllSendable none hello [] answering-Survives tt

sent_run : (complete answering (settings 9) none hello []).1 ≡ hello ∷ []
unfolding program
sent_run = refl

-- Over budget, nothing is sent.
refused_run : (complete answering (settings 4) none hello []).1 ≡ []
unfolding program
refused_run = refl

limiting-Counts : Counts limiting (settings 9) length
limiting-Counts = record {
  now = λ w. refl;
  sleep = λ n w. refl;
  hook = λ q r n w. refl;
  send = λ q w. omega arith;
}

complete_bounded_example :
    length (complete limiting (settings 9) (some spec) hello []).1
    ≤ 0 + most limiting (settings 9) (some spec)
complete_bounded_example =
    complete_bounded limiting (settings 9) length (some spec) hello [] limiting-Counts

limiting_run : length (complete limiting (settings 9) none hello []).1 ≡ 3
unfolding program
limiting_run = refl

-- An output that does not conform is repaired once, although no repair is configured.
repaired_run : length (complete answering (settings 9) (some unmet) hello []).1 ≡ 2
unfolding program
repaired_run = refl

abbrev structured_answer : LlmResponse
structured_answer = record answer {
  raw_json = some one_field;
  metadata =
      ("structured_output", structured_output "s" 1 true)
      ∷ ("prompt_guard", prompt_guard (record { allowed = true; score = none; reasons = [] }))
      ∷ [];
}

complete-Faithful_example : Faithful answering (settings 9) spec structured_answer
unfolding program
complete-Faithful_example =
    complete-Faithful answering (settings 9) spec hello [] structured_answer refl refl
