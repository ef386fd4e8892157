-- ===== src/Mcp/Domain.antt =====
-- The messages of src/electripy/ai/mcp/domain.py and their wire format. `render` stands for `str` on
-- a value that is no text. A number is its literal;
-- the version `2.0` that each message carries is left out.
pub mod Wire
use text.Mathlib.Text.{◌==◌ as str_eq}
use electripy_ai.Prelude.{
  ℕ, String, Bool, true, false, Option, none, some, List, [], ◌∷◌, if◌then◌else◌,
}
use electripy_ai.Prelude.Json.{
  Json, null, true_json, false_json, int, str, array, object, Items, no_items, item, Fields,
  no_fields, field, get_field, append_fields,
}

pub data McpContentType : Type 0 where
  text_type image_type resource_type : McpContentType

pub record McpContent : Type 0 where
  pub type : McpContentType
  pub text : Option String
  pub data_ : Option String
  pub mime_type : Option String
  pub uri : Option String

pub record McpToolDefinition : Type 0 where
  pub name : String
  pub description : String
  pub input_schema : Fields

pub record McpToolCall : Type 0 where
  pub name : String
  pub arguments : Fields
  pub call_id : Option String

pub record McpToolResult : Type 0 where
  pub content : List McpContent
  pub is_error : Bool
  pub call_id : Option String

pub record McpServerCapabilities : Type 0 where
  pub tools : Bool
  pub resources : Bool
  pub prompts : Bool

pub record McpErrorData : Type 0 where
  pub code : String
  pub message : String
  pub data_ : Option Json

pub data RequestId : Type 0 where
  number : ℕ → RequestId
  named : String → RequestId

pub record McpRequest : Type 0 where
  pub method : String
  pub params : Option Fields
  pub id : Option RequestId

pub record McpResponse : Type 0 where
  pub id : Option RequestId
  pub result : Option Fields
  pub error : Option McpErrorData

pub record McpServerConfig : Type 0 where
  pub name : String
  pub version : String
  pub protocol_version : String
  pub capabilities : McpServerCapabilities

pub record McpClientSettings : Type 0 where
  pub name : String
  pub version : String
  pub protocol_version : String

abbrev pub type_value : McpContentType → String
type_value text_type = "text"
type_value image_type = "image"
type_value resource_type = "resource"

-- `MCPContentType(value)`, which raises for any other value.
abbrev pub type_of_value : String → Option McpContentType
type_of_value s =
    if str_eq s "text"
    then some text_type
    else if str_eq s "image"
    then some image_type
    else if str_eq s "resource"
    then some resource_type
    else none

-- `if value is not None: d[key] = value`.
abbrev pub optional_field : String → Option String → Fields
optional_field key none = no_fields
optional_field key (some s) = field key (str s) no_fields

unfoldable pub content_to_dict : McpContent → Fields
content_to_dict c = field "type" (str (type_value c.type)) (
    append_fields (optional_field "text" c.text) (
      append_fields (optional_field "data" c.data_)
        (append_fields (optional_field "mimeType" c.mime_type) (optional_field "uri" c.uri))))

abbrev pub default_schema : Fields
default_schema = field "type" (str "object") (field "properties" (object no_fields) no_fields)

-- `self.input_schema or {...}`.
abbrev pub or_schema : Fields → Fields
or_schema no_fields = default_schema
or_schema (field k v fs) = field k v fs

unfoldable pub definition_to_dict : McpToolDefinition → Fields
definition_to_dict d = field "name" (str d.name) (
    field "description" (str d.description)
      (field "inputSchema" (object (or_schema d.input_schema)) no_fields))

unfoldable pub contents_to_items : List McpContent → Items
contents_to_items [] = no_items
contents_to_items (c ∷ cs) = item (object (content_to_dict c)) (contents_to_items cs)

abbrev pub bool_json : Bool → Json
bool_json true = true_json
bool_json false = false_json

unfoldable pub result_to_dict : McpToolResult → Fields
result_to_dict r =
    field "content" (array (contents_to_items r.content))
      (field "isError" (bool_json r.is_error) no_fields)

-- `if flag: caps[key] = {}`.
abbrev pub flag_field : String → Bool → Fields
flag_field key true = field key (object no_fields) no_fields
flag_field key false = no_fields

unfoldable pub capabilities_to_dict : McpServerCapabilities → Fields
capabilities_to_dict c =
    append_fields (flag_field "tools" c.tools)
      (append_fields (flag_field "resources" c.resources) (flag_field "prompts" c.prompts))

abbrev pub is_there : Option Json → Bool
is_there none = false
is_there (some v) = true

unfoldable pub capabilities_from_dict : Fields → McpServerCapabilities
capabilities_from_dict fs = record {
  tools = is_there (get_field "tools" fs);
  resources = is_there (get_field "resources" fs);
  prompts = is_there (get_field "prompts" fs);
}

module _ (render : Json → String) where
  abbrev pub text_of : Json → String
  text_of (str s) = s
  text_of v = render v

  abbrev pub text_or : String → Option Json → String
  text_or default none = default
  text_or default (some v) = text_of v

  -- `str(value) if value is not None else None`; a JSON null is `None` too.
  abbrev pub optional_text : Option Json → Option String
  optional_text none = none
  optional_text (some null) = none
  optional_text (some v) = some (text_of v)

  -- `dict(raw) if isinstance(raw, dict) else {}`, after `.get(key, {})`.
  abbrev pub object_or_empty : Option Json → Fields
  object_or_empty (some (object fs)) = fs
  object_or_empty v = no_fields

  -- `data["name"]` raises a `KeyError` where there is none.
  unfoldable pub named_definition : Fields → Option Json → Option McpToolDefinition
  named_definition fs none = none
  named_definition fs (some name) = some (record {
    name = text_of name;
    description = text_or "" (get_field "description" fs);
    input_schema = object_or_empty (get_field "inputSchema" fs);
  })

  unfoldable pub definition_from_dict : Fields → Option McpToolDefinition
  unfolding named_definition
  definition_from_dict fs = named_definition fs (get_field "name" fs)

  unfoldable pub typed_content : Fields → Option McpContentType → Option McpContent
  typed_content fs none = none
  typed_content fs (some t) = some (record {
    type = t;
    text = optional_text (get_field "text" fs);
    data_ = optional_text (get_field "data" fs);
    mime_type = optional_text (get_field "mimeType" fs);
    uri = optional_text (get_field "uri" fs);
  })

  unfoldable pub content_from_dict : Fields → Option McpContent
  unfolding typed_content
  content_from_dict fs = typed_content fs (type_of_value (text_or "text" (get_field "type" fs)))
