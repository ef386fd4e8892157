-- ===== src/Mcp/Domain/Wire.antt =====
-- What the wire format of src/electripy/ai/mcp/domain.py keeps.
use electripy_ai.Prelude.{
  String, Bool, true, false, Option, none, some, ◌≡◌, refl, ap, ◌∙◌, if◌then◌else◌,
}
use electripy_ai.Prelude.Json.{Json, str, Fields, get_field, append_fields}
use text.Mathlib.Text.{◌==◌ as str_eq}
use electripy_ai.Mcp.Domain.{
  McpContentType, text_type, image_type, resource_type, McpContent, McpToolDefinition,
  McpServerCapabilities, content_to_dict, content_from_dict, typed_content, definition_to_dict,
  definition_from_dict, named_definition, capabilities_to_dict, capabilities_from_dict, or_schema,
  type_value, type_of_value, optional_field, optional_text,
}

type_of_value-type_value : (t : McpContentType) → type_of_value (type_value t) ≡ some t
type_of_value-type_value text_type = refl
type_of_value-type_value image_type = refl
type_of_value-type_value resource_type = refl

flags_round_trip :
    (tools resources prompts : Bool)
    → let c : McpServerCapabilities = record {
      tools = tools;
      resources = resources;
      prompts = prompts;
    } in
      capabilities_from_dict (capabilities_to_dict c) ≡ c
unfolding capabilities_to_dict capabilities_from_dict
flags_round_trip true true true = refl
flags_round_trip true true false = refl
flags_round_trip true false true = refl
flags_round_trip true false false = refl
flags_round_trip false true true = refl
flags_round_trip false true false = refl
flags_round_trip false false true = refl
flags_round_trip false false false = refl

pub capabilities_round_trip :
    (c : McpServerCapabilities) → capabilities_from_dict (capabilities_to_dict c) ≡ c
capabilities_round_trip c = flags_round_trip c.tools c.resources c.prompts

-- A definition as it comes back: an empty schema is the default one.
abbrev pub completed : McpToolDefinition → McpToolDefinition
completed d = record d { input_schema = or_schema d.input_schema }

module _ (render : Json → String) where
  pub definition_round_trip :
      (d : McpToolDefinition)
      → definition_from_dict render (definition_to_dict d) ≡ some (completed d)
  unfolding definition_to_dict definition_from_dict named_definition
  definition_round_trip d = refl

  -- A field that is not asked for is passed over.
  passed_over :
      (key other : String) (x : Option String) (fs : Fields)
      → str_eq other key ≡ false
      → get_field key (append_fields (optional_field other x) fs) ≡ get_field key fs
  passed_over key other none fs h = refl
  passed_over key other (some s) fs h =
      ap (λ b. if◌then◌else◌ b (some (str s)) (get_field key fs)) h

  no_other :
      (key other : String) (x : Option String)
      → str_eq other key ≡ false
      → get_field key (optional_field other x) ≡ none
  no_other key other none h = refl
  no_other key other (some s) h = ap (λ b. if◌then◌else◌ b (some (str s)) none) h

  found :
      (key : String) (x : Option String) (fs : Fields)
      → str_eq key key ≡ true
      → get_field key fs ≡ none
      → optional_text render (get_field key (append_fields (optional_field key x) fs)) ≡ x
  found key none fs h q = ap (optional_text render) q
  found key (some s) fs h q =
      ap (λ b. optional_text render (if◌then◌else◌ b (some (str s)) (get_field key fs))) h

  uri_alone :
      (u : Option String) → optional_text render (get_field "uri" (optional_field "uri" u)) ≡ u
  uri_alone none = refl
  uri_alone (some s) = refl

  pub content_round_trip : (c : McpContent) → content_from_dict render (content_to_dict c) ≡ some c
  unfolding content_to_dict content_from_dict typed_content
  content_round_trip c =
      let uri_part = optional_field "uri" c.uri in
      let mime_part = append_fields (optional_field "mimeType" c.mime_type) uri_part in
      let data_part = append_fields (optional_field "data" c.data_) mime_part in
      let text_found = found "text" c.text data_part refl (
        passed_over "text" "data" c.data_ mime_part refl
        ∙ passed_over "text" "mimeType" c.mime_type uri_part refl
        ∙ no_other "text" "uri" c.uri refl) in
      let data_found =
        ap (optional_text render) (passed_over "data" "text" c.text data_part refl)
        ∙ found "data" c.data_ mime_part refl (
            passed_over "data" "mimeType" c.mime_type uri_part refl
            ∙ no_other "data" "uri" c.uri refl) in
      let mime_found =
        ap (optional_text render) (
          passed_over "mimeType" "text" c.text data_part refl
          ∙ passed_over "mimeType" "data" c.data_ mime_part refl)
        ∙ found "mimeType" c.mime_type uri_part refl (no_other "mimeType" "uri" c.uri refl) in
      let uri_found =
        ap (optional_text render) (
          passed_over "uri" "text" c.text data_part refl
          ∙ passed_over "uri" "data" c.data_ mime_part refl
          ∙ passed_over "uri" "mimeType" c.mime_type uri_part refl)
        ∙ uri_alone c.uri in
      ap (typed_content render (content_to_dict c)) (type_of_value-type_value c.type) ∙ (λ i.
        some (record {
          type = c.type;
          text = text_found i;
          data_ = data_found i;
          mime_type = mime_found i;
          uri = uri_found i;
        }))
