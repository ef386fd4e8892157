-- ===== src/Mcp/Server.antt =====
-- `MCPToolServer` of src/electripy/ai/mcp/services.py. A tool's handler acts on a world of the caller's
-- choice; `render` stands for `str` on a value that is no text, `quote` for the conversion `!r`.
use Prim.Native.String.{◌++◌ as str_append}
use text.Mathlib.Text.{◌==◌ as str_eq}
use electripy_ai.Prelude.{String, Option, none, some, List, [], ◌∷◌, map, if◌then◌else◌}
use electripy_ai.Prelude.Names.{Names, get, put}
use electripy_ai.Prelude.Json.{
  Json, true_json, str, array, object, Items, no_items, item, Fields, no_fields, field, get_field,
}
use electripy_ai.Mcp.Domain.{
  McpToolDefinition, McpToolCall, McpToolResult, McpRequest, McpResponse, McpServerConfig,
  definition_to_dict, result_to_dict, capabilities_to_dict, text_or, object_or_empty,
}

-- What a handler does; an exception has its text.
pub data Handled : Type 0 where
  returned : McpToolResult → Handled
  raised : String → Handled

abbrev pub Handler : Type 0 → Type 0
Handler W = McpToolCall → W → Handled × W

pub record McpToolServer (W : Type 0) : Type 0 where
  pub config : McpServerConfig
  pub tools : Names (McpToolDefinition × Handler W)

unfoldable pub or_no_fields : Option Fields → Fields
or_no_fields none = no_fields
or_no_fields (some fs) = fs

unfoldable pub answered : McpRequest → Fields → McpResponse
answered request result = record { id = request.id; result = some result; error = none }

unfoldable pub refused : McpRequest → String → String → McpResponse
refused request code message = record {
  id = request.id;
  result = none;
  error = some (record { code = code; message = message; data_ = none });
}

unfoldable pub definitions : List McpToolDefinition → Items
definitions [] = no_items
definitions (d ∷ ds) = item (object (definition_to_dict d)) (definitions ds)

module _ {W : Type 0} where
  pub new_server : McpServerConfig → McpToolServer W
  new_server config = record { config = config; tools = [] }

  unfoldable pub registered :
      McpToolServer W
      → McpToolDefinition
      → Handler W
      → Option (McpToolDefinition × Handler W)
      → Option (McpToolServer W)
  registered server definition handler (some tool) = none
  registered server definition handler none =
      some (record server { tools = put definition.name (definition, handler) server.tools })

  -- A `ValueError` is `none`.
  unfoldable pub register_tool :
      McpToolServer W → McpToolDefinition → Handler W → Option (McpToolServer W)
  register_tool server definition handler =
      registered server definition handler (get definition.name server.tools)

  unfoldable pub handle_initialize : McpToolServer W → McpRequest → McpResponse
  handle_initialize server request = answered request (
      field "protocolVersion" (str server.config.protocol_version) (
        field "capabilities" (object (capabilities_to_dict server.config.capabilities)) (
          field "serverInfo"
            (object (
              field "name" (str server.config.name)
                (field "version" (str server.config.version) no_fields)))
            no_fields)))

  unfoldable pub handle_tools_list : McpToolServer W → McpRequest → McpResponse
  handle_tools_list server request =
      answered request
        (field "tools" (array (definitions (map (λ tool. tool.1.0) server.tools))) no_fields)

  unfoldable pub call_response : McpRequest → Handled × W → McpResponse × W
  call_response request (returned result, w) = (answered request (result_to_dict result), w)
  call_response request (raised message, w) =
      let text = field "type" (str "text") (field "text" (str message) no_fields) in
      (
        answered request (
            field "content" (array (item (object text) no_items))
              (field "isError" true_json no_fields)),
        w,
      )

module _ {W : Type 0} (render : Json → String) (quote : String → String) where
  unfoldable pub dispatched :
      McpRequest → String → Fields → Option (McpToolDefinition × Handler W) → W → McpResponse × W
  dispatched request name arguments none w =
      (refused request "-32602" (str_append "Unknown tool: " (quote name)), w)
  dispatched request name arguments (some tool) w =
      let call : McpToolCall = record { name = name; arguments = arguments; call_id = none } in
      call_response request (tool.1 call w)

  unfoldable pub handle_tools_call : McpToolServer W → McpRequest → W → McpResponse × W
  handle_tools_call server request w =
      let params = or_no_fields request.params in
      let name = text_or render "" (get_field "name" params) in
      let arguments = object_or_empty render (get_field "arguments" params) in
      dispatched request name arguments (get name server.tools) w

  unfoldable pub handle_request : McpToolServer W → McpRequest → W → McpResponse × W
  handle_request server request w =
      if str_eq request.method "initialize"
      then (handle_initialize server request, w)
      else if str_eq request.method "notifications/initialized"
      then (record { id = request.id; result = none; error = none }, w)
      else if str_eq request.method "tools/list"
      then (handle_tools_list server request, w)
      else if str_eq request.method "tools/call"
      then handle_tools_call server request w
      else if str_eq request.method "ping"
      then (answered request no_fields, w)
      else (refused request "-32601" (str_append "Method not found: " request.method), w)
