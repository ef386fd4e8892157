-- ===== src/Mcp/Client/Served.antt =====
-- A tool call over the in-memory transport (src/electripy/ai/mcp/services.py).
use Prim.Native.String.{◌++◌ as str_append}
use electripy_ai.Prelude.{
  String, Bool, true, false, Option, none, some, List, [], ◌∷◌, ◌≡◌, refl, ap, ◌∙◌, if◌then◌else◌,
}
use electripy_ai.Prelude.Names.{get}
use electripy_ai.Prelude.Json.{Json, Fields, str, object, no_fields, field}
use electripy_ai.Mcp.Domain.{
  McpContent, text_type, McpToolDefinition, McpToolCall, McpToolResult, McpRequest,
  contents_to_items, typed_content, content_from_dict, result_to_dict, bool_json,
}
use electripy_ai.Mcp.Domain.Wire.{content_round_trip}
use electripy_ai.Mcp.Server.{
  Handled, returned, raised, Handler, McpToolServer, or_no_fields, answered, refused, call_response,
  dispatched, handle_tools_call, handle_request,
}
use electripy_ai.Mcp.Client.{
  tool_execution_error, Result, ok, raise, not_initialized, McpClient, next_id, with_id, checked,
  check_sent, cons_ok, parse_contents, parse_content_list, truthy, tool_result, on_call,
  request_call, call_tool, in_memory, received,
}

-- A result that has lost its call's identifier.
abbrev pub uncorrelated : McpToolResult → McpToolResult
uncorrelated r = record r { call_id = none }

abbrev pub text_content : String → McpContent
text_content message = record {
  type = text_type;
  text = some message;
  data_ = none;
  mime_type = none;
  uri = none;
}

abbrev pub reported : {W : Type 0} → Handled × W → Result McpToolResult × W
reported (returned r, w) = (ok (uncorrelated r), w)
reported (raised message, w) =
    (ok (record { content = text_content message ∷ []; is_error = true; call_id = none }), w)

-- What is left when the protocol is taken away: the handler is called.
abbrev pub direct :
    {W : Type 0}
    → (String → String)
    → Option (McpToolDefinition × Handler W)
    → McpToolCall
    → W
    → Result McpToolResult × W
direct quote none call w =
    (raise (tool_execution_error call.name (str_append "Unknown tool: " (quote call.name))), w)
direct quote (some tool) call w = reported (tool.1 call w)

truthy-bool_json : (is_zero : String → Bool) (b : Bool) → truthy is_zero (some (bool_json b)) ≡ b
unfolding truthy
truthy-bool_json is_zero true = refl
truthy-bool_json is_zero false = refl

module _ (render : Json → String) (is_zero : String → Bool) where
  parse_contents-items :
      (cs : List McpContent) → parse_contents render (contents_to_items cs) ≡ some cs
  unfolding parse_contents contents_to_items cons_ok
  parse_contents-items [] = refl
  parse_contents-items (c ∷ cs) =
      λ i. cons_ok (content_round_trip render c i) (parse_contents-items cs i)

  on_call-result_to_dict :
      (r : McpToolResult) → on_call render is_zero (ok (result_to_dict r)) ≡ ok (uncorrelated r)
  unfolding on_call result_to_dict tool_result parse_content_list
  on_call-result_to_dict r =
      λ i. tool_result (parse_contents-items r.content i) (truthy-bool_json is_zero r.is_error i)

  module _ {W : Type 0} (quote : String → String) (name : String) (arguments : Fields) where
    on_call-response :
        (request : McpRequest) (x : Handled × W)
        → let y = call_response request x in
          (on_call render is_zero (check_sent (tool_execution_error name) (received y.0)), y.1)
          ≡ reported x
    unfolding call_response check_sent checked answered or_no_fields on_call tool_result
        parse_content_list parse_contents cons_ok content_from_dict typed_content truthy
    on_call-response request (returned r, w) = λ i. (on_call-result_to_dict r i, w)
    on_call-response request (raised message, w) = refl

    on_call-dispatched :
        (tool : Option (McpToolDefinition × Handler W)) (request : McpRequest) (w : W)
        → let x = dispatched render quote request name arguments tool w in
          let call : McpToolCall = record { name = name; arguments = arguments; call_id = none } in
          (on_call render is_zero (check_sent (tool_execution_error name) (received x.0)), x.1)
          ≡ direct quote tool call w
    unfolding dispatched check_sent checked refused on_call
    on_call-dispatched none request w = refl
    on_call-dispatched (some tool) request w =
        on_call-response request
          (tool.1 (record { name = name; arguments = arguments; call_id = none }) w)

request_call_served :
    {W : Type 0} (render : Json → String) (quote : String → String) (is_zero : String → Bool)
    (server : McpToolServer W) (client : McpClient) (name : String) (arguments : Option Fields)
    (w : W)
    → let call : McpToolCall = record {
      name = name;
      arguments = or_no_fields arguments;
      call_id = none;
    } in
      let x = direct quote (get name server.tools) call w in
      request_call (in_memory render quote server) render is_zero name arguments client w
      ≡ (x.0, client, x.1)
unfolding request_call in_memory handle_request handle_tools_call with_id or_no_fields
request_call_served render quote is_zero server client name arguments w =
    let params =
      field "name" (str name) (field "arguments" (object (or_no_fields arguments)) no_fields) in
    let served =
      on_call-dispatched render is_zero quote name (or_no_fields arguments) (get name server.tools)
        (with_id client "tools/call" (some params)) w in
    λ i. ((served i).0, client, (served i).1)

-- For an initialised client: a tool call over the in-memory transport does to the world what the
-- handler of the tool's name does to it, and returns what the handler returned, less the call's
-- identifier; where the handler raises, an error result with the exception's text; and where no tool
-- has the name, it raises the server's message. The client has counted one request more.
pub call_tool_served :
    {W : Type 0} (render : Json → String) (quote : String → String) (is_zero : String → Bool)
    (server : McpToolServer W) (client : McpClient) (name : String) (arguments : Option Fields)
    (w : W)
    → client.initialized ≡ true
    → let call : McpToolCall = record {
      name = name;
      arguments = or_no_fields arguments;
      call_id = none;
    } in
      let x = direct quote (get name server.tools) call w in
      call_tool (in_memory render quote server) render is_zero name arguments client w
      ≡ (x.0, next_id client, x.1)
unfolding call_tool
call_tool_served render quote is_zero server client name arguments w h =
    let call = request_call (in_memory render quote server) render is_zero name arguments in
    ap (λ b. if◌then◌else◌ b (call (next_id client) w) (raise not_initialized, client, w)) h
    ∙ request_call_served render quote is_zero server (next_id client) name arguments w
