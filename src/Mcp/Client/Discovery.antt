-- ===== src/Mcp/Client/Discovery.antt =====
-- What a client learns of a server over the in-memory transport (src/electripy/ai/mcp/services.py).
use electripy_ai.Prelude.{
  ◌+◌, String, Bool, true, false, Option, none, some, List, [], ◌∷◌, map, ◌≡◌, refl, sym, ap, ◌∙◌,
  some-injective, if◌then◌else◌,
}
use mathlib.Core.Option.{none-ne-some}
use text.Mathlib.Text.{◌==◌ as str_eq}
use electripy_ai.Prelude.Names.{get, put, get-put}
use electripy_ai.Prelude.Json.{Json, Fields}
use electripy_ai.Mcp.Domain.{McpToolDefinition, McpToolCall, McpToolResult}
use electripy_ai.Mcp.Domain.Wire.{capabilities_round_trip, definition_round_trip, completed}
use electripy_ai.Mcp.Server.{
  Handler, McpToolServer, or_no_fields, answered, definitions, registered, register_tool,
  handle_initialize, handle_tools_list, handle_request,
}
use electripy_ai.Mcp.Client.{
  Result, ok, McpClient, next_id, with_id, checked, check_sent, cons_ok, capabilities_of,
  parse_tools, tools_of, listed, on_tools, accepted, notified, initialize, initialized_notification,
  request_tools, list_tools, call_tool, in_memory,
}
use electripy_ai.Mcp.Client.Served.{direct, reported, call_tool_served}

parse_tools-definitions :
    (render : Json → String) (ds : List McpToolDefinition)
    → parse_tools render (definitions ds) ≡ some (map completed ds)
unfolding parse_tools definitions cons_ok
parse_tools-definitions render [] = refl
parse_tools-definitions render (d ∷ ds) =
    λ i. cons_ok (definition_round_trip render d i) (parse_tools-definitions render ds i)

module _ {W : Type 0} (render : Json → String) (quote : String → String)
    (server : McpToolServer W) where
  abbrev pub server_definitions : List McpToolDefinition
  server_definitions = map completed (map (λ tool. tool.1.0) server.tools)

  after_initialize : McpClient → McpClient
  after_initialize client = record client {
    request_id = client.request_id + 1;
    capabilities = some server.config.capabilities;
    initialized = true;
  }

  initialize_served :
      (client : McpClient) (w : W)
      → initialize (in_memory render quote server) client w
        ≡ (ok server.config.capabilities, after_initialize client, w)
  unfolding initialize in_memory handle_request handle_initialize with_id next_id check_sent checked
      answered or_no_fields accepted notified initialized_notification capabilities_of
      after_initialize
  initialize_served client w =
      let same = capabilities_round_trip server.config.capabilities in
      λ i. (
        ok (same i),
        record client {
          request_id = client.request_id + 1;
          capabilities = some (same i);
          initialized = true;
        },
        w,
      )

  request_tools_served :
      (client : McpClient) (w : W)
      → request_tools (in_memory render quote server) render client w
        ≡ (ok server_definitions, record client { tools = server_definitions }, w)
  unfolding request_tools in_memory handle_request handle_tools_list with_id check_sent checked
      answered or_no_fields on_tools listed tools_of
  request_tools_served client w =
      ap (λ ds. listed render client ds w)
        (parse_tools-definitions render (map (λ tool. tool.1.0) server.tools))

-- Over the in-memory transport, `initialize` and then `list_tools` return the server's capabilities
-- and the definitions of its tools in the order of their registration, each with the default schema
-- where it has none; the client keeps both, has counted two requests, and the world is as it was.
pub discovery_served :
    {W : Type 0} (render : Json → String) (quote : String → String) (server : McpToolServer W)
    (client : McpClient) (w : W)
    → let transport = in_memory render quote server in
      let (capabilities, client1, w1) = initialize transport client w in
      let (tools, client2, w2) = list_tools transport render client1 w1 in
      (capabilities ≡ ok server.config.capabilities)
      × (tools ≡ ok (server_definitions render quote server))
      × (client2 ≡ record client {
        request_id = client.request_id + 1 + 1;
        capabilities = some server.config.capabilities;
        tools = server_definitions render quote server;
        initialized = true;
      })
      × (w2 ≡ w)
unfolding list_tools next_id after_initialize
discovery_served render quote server client w =
    let transport = in_memory render quote server in
    let init = initialize_served render quote server client w in
    let asked =
      ap (λ x. list_tools transport render x.1 x.2) init
      ∙ request_tools_served render quote server
          (next_id (after_initialize render quote server client)) w in
    (ap (λ x. x.0) init, ap (λ y. y.0) asked, ap (λ y. y.1) asked, ap (λ y. y.2) asked)

on_registered :
    {W : Type 0} (server server' : McpToolServer W) (d : McpToolDefinition) (handler : Handler W)
    (tool : Option (McpToolDefinition × Handler W))
    → registered server d handler tool ≡ some server'
    → (tool ≡ none) × (server'.tools ≡ put d.name (d, handler) server.tools)
unfolding registered
on_registered server server' d handler none h =
    (refl, ap (λ s. s.tools) (sym (some-injective _ _ h)))
on_registered server server' d handler (some tool) h = absurd (none-ne-some _ h)

ap-if :
    {A B : Type 0} (f : A → B) (b : Bool) (x y : A)
    → f (if b then x else y) ≡ (if b then f x else f y)
ap-if f true x y = refl
ap-if f false x y = refl

-- Where `register_tool` succeeds, no tool had the name, and for an initialised client: a call of the
-- name over the in-memory transport is served by the new handler, and a call of every other name as
-- it was before.
register_tool_served :
    {W : Type 0} (render : Json → String) (quote : String → String) (is_zero : String → Bool)
    (server server' : McpToolServer W) (definition : McpToolDefinition) (handler : Handler W)
    (client : McpClient) (name : String) (arguments : Option Fields) (w : W)
    → register_tool server definition handler ≡ some server'
    → client.initialized ≡ true
    → let call : McpToolCall = record {
      name = name;
      arguments = or_no_fields arguments;
      call_id = none;
    } in
      let x = reported (handler call w) in
      (get definition.name server.tools ≡ none)
      × (call_tool (in_memory render quote server') render is_zero name arguments client w ≡ (
          if str_eq definition.name name
          then (x.0, next_id client, x.1)
          else call_tool (in_memory render quote server) render is_zero name arguments client w))
unfolding register_tool
register_tool_served render quote is_zero server server' definition handler client name arguments w
      h initialized =
    let call : McpToolCall = record {
      name = name;
      arguments = or_no_fields arguments;
      call_id = none;
    } in
    let answer : Option (McpToolDefinition × Handler _) → Result McpToolResult × McpClient × _ =
      λ tool. ((direct quote tool call w).0, next_id client, (direct quote tool call w).1) in
    let served = λ (s : McpToolServer _).
      call_tool_served render quote is_zero s client name arguments w initialized in
    let (free, tools) = on_registered server server' definition handler _ h in
    let b = str_eq definition.name name in
    (
      free,
      served server'
          ∙ ap answer (
              ap (get name) tools ∙ get-put definition.name name (definition, handler) server.tools)
          ∙ ap-if answer b (some (definition, handler)) (get name server.tools)
          ∙ ap (λ y. if◌then◌else◌ b (answer (some (definition, handler))) y) (sym (served server)),
    )
