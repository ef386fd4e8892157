-- ===== src/LlmGateway/Domain.antt =====
-- The requests, responses, settings and errors of src/electripy/ai/llm_gateway/ (domain.py, config.py,
-- errors.py). Durations are natural numbers of one unit, a temperature is in hundredths, and what a
-- request's metadata hold, which the gateway never reads, is text.
use Prim.Native.String.{◌++◌ as str_append}
use electripy_ai.Prelude.{ℕ, String, Bool, Option, none, some, List, [], ◌∷◌}
use electripy_ai.Prelude.Names.{Names}
use electripy_ai.Prelude.Json.{Json}

pub data LlmRole : Type 0 where
  system_role user_role assistant_role : LlmRole

pub record LlmMessage : Type 0 where
  pub role : LlmRole
  pub content : String

unfoldable pub system : String → LlmMessage
system content = record { role = system_role; content = content }

-- The Python types that a field may have.
pub data FieldType : Type 0 where
  str_type int_type float_type bool_type list_type dict_type : FieldType

pub record StructuredOutputSpec : Type 0 where
  pub name : String
  pub field_types : Names FieldType
  pub description : Option String

pub type_name : FieldType → String
type_name str_type = "str"
type_name int_type = "int"
type_name float_type = "float"
type_name bool_type = "bool"
type_name list_type = "list"
type_name dict_type = "dict"

-- The lines from the fields on, each after a line break.
pub field_lines : Names FieldType → String
field_lines [] = ""
field_lines ((key, t) ∷ rest) =
    str_append "\n- "
      (str_append key (str_append ": " (str_append (type_name t) (field_lines rest))))

pub description_line : Option String → String
description_line none = ""
description_line (some String.[]) = ""
description_line (some (String.◌∷◌ c s)) = str_append "\nDescription: " (String.◌∷◌ c s)

pub describe_for_prompt : StructuredOutputSpec → String
describe_for_prompt spec = str_append "Schema " (
    str_append spec.name (
      str_append ":"
        (str_append (field_lines spec.field_types) (description_line spec.description))))

pub record LlmRequest : Type 0 where
  pub model : String
  pub messages : List LlmMessage
  pub temperature : ℕ
  pub max_output_tokens : Option ℕ
  pub max_input_chars : Option ℕ
  pub metadata : Option (Names String)

unfoldable pub clone_with_messages : LlmRequest → List LlmMessage → LlmRequest
clone_with_messages request messages = record request { messages = messages }

-- `GuardResult` of ports.py; a score is in hundredths.
pub record GuardResult : Type 0 where
  pub allowed : Bool
  pub score : Option ℕ
  pub reasons : List String

-- What the gateway, or the port, notes in a response's metadata.
pub data Note : Type 0 where
  prompt_guard : GuardResult → Note
  structured_output : String → ℕ → Bool → Note
  other : String → Note

pub record LlmResponse : Type 0 where
  pub text : String
  pub raw_json : Option Json
  pub usage_total_tokens : Option ℕ
  pub finish_reason : Option String
  pub request_id : Option String
  pub model : Option String
  pub metadata : Names Note

pub record RetryPolicy : Type 0 where
  pub max_attempts : ℕ
  pub initial_backoff_seconds : ℕ
  pub max_backoff_seconds : ℕ
  pub total_timeout_seconds : ℕ

-- A hook maps to `none` where it raises.
pub record LlmGatewaySettings : Type 0 where
  pub retry_policy : RetryPolicy
  pub default_max_input_chars : ℕ
  pub prompt_guard : Option (List LlmMessage → GuardResult)
  pub structured_output_max_repair_attempts : ℕ
  pub request_hook : Option (LlmRequest → Option LlmRequest)
  pub response_hook : Option (LlmRequest → LlmResponse → Option LlmResponse)

-- The messages that `_validate_structured_output` and the JSON parser produce.
pub data ValidationError : Type 0 where
  json_parse_error not_an_object : ValidationError
  missing_field : String → ValidationError
  wrong_type : String → FieldType → Json → ValidationError

-- `port_error` and `hook_error` are exceptions of the port and of the hooks, which pass.
pub data LlmError : Type 0 where
  token_budget_exceeded : ℕ → ℕ → LlmError
  prompt_rejected : List String → LlmError
  retry_exhausted : ℕ → String → LlmError
  structured_output_error : String → List ValidationError → LlmError
  port_error hook_error : LlmError
