-- ===== src/LlmGateway/Validation.antt =====
-- The prompts and the validation of the structured mode of src/electripy/ai/llm_gateway/services.py.
use Prim.Native.String.{◌++◌ as str_append}
use electripy_ai.Prelude.{
  ℕ, zero, suc, String, Bool, true, false, not, Option, none, some, List, [], ◌∷◌, ◌++◌,
  if◌then◌else◌,
}
use electripy_ai.Prelude.Names.{Names}
use electripy_ai.Prelude.Json.{
  Json, true_json, false_json, int, float, str, array, object, Fields, no_fields, field,
}
use electripy_ai.LlmGateway.Domain.{
  FieldType, str_type, int_type, float_type, bool_type, list_type, dict_type, StructuredOutputSpec,
  describe_for_prompt, ValidationError, not_an_object, missing_field, wrong_type,
}
use text.Mathlib.Text.{◌==◌ as str_eq}

-- `isinstance`: a Boolean is an `int` too.
unfoldable pub has_type : FieldType → Json → Bool
has_type str_type (str s) = true
has_type int_type (int n) = true
has_type int_type true_json = true
has_type int_type false_json = true
has_type float_type (float x) = true
has_type bool_type true_json = true
has_type bool_type false_json = true
has_type list_type (array xs) = true
has_type dict_type (object fs) = true
has_type t v = false

-- `data[key]`: of two fields of one name a parser keeps the last.
unfoldable pub value_of : String → Fields → Option Json
value_of key no_fields = none
value_of key (field k v fs) =
    let later = value_of key fs in
    elim later [ none ↦ if str_eq k key then some v else none | some w ↦ some w ]

unfoldable pub field_errors : String → FieldType → Option Json → List ValidationError
field_errors key t none = missing_field key ∷ []
field_errors key t (some v) = if not (has_type t v) then wrong_type key t v ∷ [] else []

unfoldable pub fields_errors : Names FieldType → Fields → List ValidationError
fields_errors [] fs = []
fields_errors ((key, t) ∷ rest) fs = field_errors key t (value_of key fs) ++ fields_errors rest fs

unfoldable pub validate_structured_output : Json → StructuredOutputSpec → List ValidationError
validate_structured_output (object fs) spec = fields_errors spec.field_types fs
validate_structured_output parsed spec = not_an_object ∷ []

unfoldable pub or_empty : Option String → String
or_empty none = ""
or_empty (some s) = s

unfoldable pub build_structured_system_message :
    StructuredOutputSpec → Bool → Option String → String
build_structured_system_message spec repair previous =
    let schema_text = describe_for_prompt spec in
    if not repair
    then str_append "You are a JSON API.\nReturn ONLY a single JSON object, with no commentary.\n"
        (str_append schema_text "\nDo not include any explanatory text. Output must be valid JSON.")
    else str_append
        "You are a JSON repair API.\nYou will be given a previous invalid JSON output. Return ONLY a corrected JSON object that matches the schema.\n"
        (str_append schema_text (
          str_append "\nPrevious invalid JSON:\n" (
            str_append (or_empty previous)
              "\nDo not include any explanatory text. Output must be valid JSON.")))

-- `text[:n]`.
unfoldable pub take_chars : ℕ → String → String
take_chars zero s = ""
take_chars (suc n) String.[] = ""
take_chars (suc n) (String.◌∷◌ c s) = String.◌∷◌ c (take_chars n s)
