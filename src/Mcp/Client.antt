-- ===== src/Mcp/Client.antt =====
-- `MCPClient` of src/electripy/ai/mcp/services.py over a transport that acts on a world of the caller's
-- choice, and the in-memory transport of src/electripy/ai/mcp/adapters.py. `render` stands for `str` on a
-- value that is no text, `is_zero` tells the literals of zero. Log messages are left out.
pub mod Served
pub mod Discovery
pub mod Handshake
use electripy_ai.Prelude.{
  ℕ, ◌+◌, String, Bool, true, false, not, Option, none, some, List, [], ◌∷◌, if◌then◌else◌,
}
use text.Mathlib.Text.{◌==◌ as str_eq}
use electripy_ai.Prelude.Json.{
  Json, true_json, int, float, str, array, object, Items, no_items, item, Fields, no_fields, field,
  get_field,
}
use electripy_ai.Mcp.Domain.{
  McpContent, McpToolDefinition, McpToolResult, McpServerCapabilities, number, McpRequest,
  McpResponse, McpClientSettings, capabilities_from_dict, definition_from_dict, content_from_dict,
}
use electripy_ai.Mcp.Server.{McpToolServer, or_no_fields, handle_request}

-- What the transport's `send` does: `mcp_error` is any `MCPError`, `exception` any other exception.
pub data Sent : Type 0 where
  received : McpResponse → Sent
  mcp_error exception : String → Sent

abbrev pub Transport : Type 0 → Type 0
Transport W = McpRequest → W → Sent × W

pub data McpClientError : Type 0 where
  not_initialized : McpClientError
  server_error tool_execution_error : String → String → McpClientError
  transport_error : String → McpClientError
  key_error value_error : McpClientError

pub data Result (A : Type 0) : Type 0 where
  ok : A → Result A
  raise : McpClientError → Result A

pub record McpClient : Type 0 where
  pub settings : McpClientSettings
  pub request_id : ℕ
  pub capabilities : Option McpServerCapabilities
  pub tools : List McpToolDefinition
  pub initialized : Bool

pub new_client : McpClientSettings → McpClient
new_client settings = record {
  settings = settings;
  request_id = 0;
  capabilities = none;
  tools = [];
  initialized = false;
}

-- `client` has the new number already.
pub next_id : McpClient → McpClient
next_id client = record client { request_id = client.request_id + 1 }

pub with_id : McpClient → String → Option Fields → McpRequest
with_id client method params = record {
  method = method;
  params = params;
  id = some (number client.request_id);
}

pub initialized_notification : McpRequest
initialized_notification = record { method = "notifications/initialized"; params = none; id = none }

pub is_error : McpResponse → Bool
is_error response = elim response.error [ none ↦ false | some e ↦ true ]

-- A response's error becomes `on_error` of its message.
pub checked : (String → McpClientError) → McpResponse → Result Fields
checked on_error response = elim response.error [
  | none ↦ ok (or_no_fields response.result)
  | some e ↦ raise (on_error e.message)
]

pub check_sent : (String → McpClientError) → Sent → Result Fields
check_sent on_error (received response) = checked on_error response
check_sent on_error (mcp_error message) = raise (transport_error message)
check_sent on_error (exception message) = raise (transport_error message)

pub capabilities_of : Option Json → McpServerCapabilities
capabilities_of none = capabilities_from_dict no_fields
capabilities_of (some (object fs)) = capabilities_from_dict fs
capabilities_of (some v) = record { tools = false; resources = false; prompts = false }

pub initialize_params : McpClientSettings → Fields
initialize_params settings = field "protocolVersion" (str settings.protocol_version) (
    field "capabilities" (object no_fields) (
      field "clientInfo"
        (object
          (field "name" (str settings.name) (field "version" (str settings.version) no_fields)))
        no_fields))

pub cons_ok : {A : Type 0} → Option A → Option (List A) → Option (List A)
cons_ok (some x) (some xs) = some (x ∷ xs)
cons_ok x xs = none

module _ (render : Json → String) where
  -- What is no dictionary is passed over; `none` where one has no name.
  pub parse_tools : Items → Option (List McpToolDefinition)
  parse_tools no_items = some []
  parse_tools (item (object fs) rest) = cons_ok (definition_from_dict render fs) (parse_tools rest)
  parse_tools (item v rest) = parse_tools rest

  pub tools_of : Option Json → Option (List McpToolDefinition)
  tools_of (some (array items)) = parse_tools items
  tools_of v = some []

  pub parse_contents : Items → Option (List McpContent)
  parse_contents no_items = some []
  parse_contents (item (object fs) rest) =
      cons_ok (content_from_dict render fs) (parse_contents rest)
  parse_contents (item v rest) = parse_contents rest

  -- `none` where a content has a type that is not known.
  pub parse_content_list : Option Json → Option (List McpContent)
  parse_content_list (some (array items)) = parse_contents items
  parse_content_list v = some []

  pub listed :
      {W : Type 0}
      → McpClient
      → Option (List McpToolDefinition)
      → W
      → Result (List McpToolDefinition) × McpClient × W
  listed client none w = (raise key_error, client, w)
  listed client (some tools) w = (ok tools, record client { tools = tools }, w)

  pub on_tools :
      {W : Type 0} → McpClient → Result Fields → W → Result (List McpToolDefinition) × McpClient × W
  on_tools client (raise e) w = (raise e, client, w)
  on_tools client (ok result) w = listed client (tools_of (get_field "tools" result)) w

module _ (is_zero : String → Bool) where
  -- `bool(value)`, of `False` where there is no value.
  pub truthy : Option Json → Bool
  truthy (some true_json) = true
  truthy (some (int n)) = not (is_zero n)
  truthy (some (float x)) = not (is_zero x)
  truthy (some (str s)) = not (str_eq s "")
  truthy (some (array (item v vs))) = true
  truthy (some (object (field k v fs))) = true
  truthy v = false

pub tool_result : Option (List McpContent) → Bool → Result McpToolResult
tool_result none is_error = raise value_error
tool_result (some content) is_error =
    ok (record { content = content; is_error = is_error; call_id = none })

module _ (render : Json → String) (is_zero : String → Bool) where
  pub on_call : Result Fields → Result McpToolResult
  on_call (raise e) = raise e
  on_call (ok result) =
      tool_result (parse_content_list render (get_field "content" result))
        (truthy is_zero (get_field "isError" result))

module _ {W : Type 0} (transport : Transport W) where
  pub notified :
      McpServerCapabilities → McpClient → Sent × W → Result McpServerCapabilities × McpClient × W
  notified capabilities client (received response, w) =
      (ok capabilities, record client { initialized = true }, w)
  notified capabilities client (mcp_error message, w) = (raise (transport_error message), client, w)
  notified capabilities client (exception message, w) = (raise (transport_error message), client, w)

  pub accepted : McpClient → Result Fields → W → Result McpServerCapabilities × McpClient × W
  accepted client (raise e) w = (raise e, client, w)
  accepted client (ok result) w =
      let capabilities = capabilities_of (get_field "capabilities" result) in
      notified capabilities (record client { capabilities = some capabilities })
        (transport initialized_notification w)

  pub initialize : McpClient → W → Result McpServerCapabilities × McpClient × W
  initialize client w =
      let client' = next_id client in
      let params = initialize_params client'.settings in
      let (sent, w1) = transport (with_id client' "initialize" (some params)) w in
      accepted client' (check_sent (server_error "initialize") sent) w1

  pub ponged : McpClient → Sent × W → Result Bool × McpClient × W
  ponged client (received response, w) = (ok (not (is_error response)), client, w)
  ponged client (mcp_error message, w) = (ok false, client, w)
  ponged client (exception message, w) = (raise (transport_error message), client, w)

  pub ping : McpClient → W → Result Bool × McpClient × W
  ping client w =
      let client' = next_id client in ponged client' (transport (with_id client' "ping" none) w)

  module _ (render : Json → String) where
    pub request_tools : McpClient → W → Result (List McpToolDefinition) × McpClient × W
    request_tools client w =
        let (sent, w1) = transport (with_id client "tools/list" none) w in
        on_tools render client (check_sent (server_error "tools/list") sent) w1

    pub list_tools : McpClient → W → Result (List McpToolDefinition) × McpClient × W
    list_tools client w =
        if client.initialized
        then request_tools (next_id client) w
        else (raise not_initialized, client, w)

    module _ (is_zero : String → Bool) where
      pub request_call :
          String → Option Fields → McpClient → W → Result McpToolResult × McpClient × W
      request_call name arguments client w =
          let params =
            field "name" (str name)
              (field "arguments" (object (or_no_fields arguments)) no_fields) in
          let (sent, w1) = transport (with_id client "tools/call" (some params)) w in
          (on_call render is_zero (check_sent (tool_execution_error name) sent), client, w1)

      pub call_tool : String → Option Fields → McpClient → W → Result McpToolResult × McpClient × W
      call_tool name arguments client w =
          if client.initialized
          then request_call name arguments (next_id client) w
          else (raise not_initialized, client, w)

-- `InMemoryTransportAdapter`, with the server's `handle_request` as its handler.
pub in_memory : {W : Type 0} → (Json → String) → (String → String) → McpToolServer W → Transport W
in_memory render quote server request w =
    let (response, w1) = handle_request render quote server request w in (received response, w1)
