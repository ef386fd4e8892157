-- ===== src/Mcp/Tests.antt =====
-- Concrete sessions of src/electripy/ai/mcp/services.py.
use Prim.Native.String.{◌++◌ as str_append}
use electripy_ai.Prelude.{ℕ, ◌+◌, String, Bool, true, false, none, some, [], ◌∷◌, ◌≡◌, refl}
use electripy_ai.Prelude.Json.{Json, no_fields}
use electripy_ai.Prelude.Names.{get}
use electripy_ai.Mcp.Domain.{McpToolDefinition, McpServerConfig, McpClientSettings}
use electripy_ai.Mcp.Server.{returned, raised, Handler, McpToolServer, registered, register_tool}
use electripy_ai.Mcp.Client.{
  McpClient, new_client, next_id, ok, call_tool, initialize, list_tools, in_memory,
}
use electripy_ai.Mcp.Client.Served.{text_content, call_tool_served}
use electripy_ai.Mcp.Client.Discovery.{server_definitions, discovery_served}
use electripy_ai.Mcp.Client.Handshake.{
  Orderly, run_commands, logged, initialize_command, list_tools_command, call_tool_command,
  ping_command,
}
use electripy_ai.Mcp.Client.Handshake.Kept.{commands-Orderly}

abbrev render : Json → String
render v = "value"

abbrev quote : String → String
quote s = str_append "'" (str_append s "'")

abbrev is_zero : String → Bool
is_zero n = false

abbrev config : McpServerConfig
config = record {
  name = "demo";
  version = "1.0.0";
  protocol_version = "2024-11-05";
  capabilities = record { tools = true; resources = false; prompts = false };
}

abbrev settings : McpClientSettings
settings = record { name = "client"; version = "1.0.0"; protocol_version = "2024-11-05" }

abbrev named_tool : String → McpToolDefinition
named_tool name = record { name = name; description = ""; input_schema = no_fields }

-- The world counts the calls.
abbrev echo : Handler ℕ
echo call w = (
  returned (record { content = text_content call.name ∷ []; is_error = false; call_id = some "7" }),
  w + 1,
)

abbrev failing : Handler ℕ
failing call w = (raised "boom", w)

abbrev one_tool : McpToolServer ℕ
one_tool = record { config = config; tools = ("echo", (named_tool "echo", echo)) ∷ [] }

abbrev two_tools : McpToolServer ℕ
two_tools = record {
  config = config;
  tools = ("echo", (named_tool "echo", echo)) ∷ ("fail", (named_tool "fail", failing)) ∷ [];
}

abbrev ready : McpClient
ready = record {
  settings = settings;
  request_id = 2;
  capabilities = none;
  tools = [];
  initialized = true;
}

call_tool_served_example :
    call_tool (in_memory render quote two_tools) render is_zero "echo" none ready 4 ≡ (
      ok (record { content = text_content "echo" ∷ []; is_error = false; call_id = none }),
      next_id ready,
      5,
    )
unfolding get
call_tool_served_example = call_tool_served render quote is_zero two_tools ready "echo" none 4 refl

discovery_served_example :
    let transport = in_memory render quote two_tools in
    let (capabilities, client1, w1) = initialize transport (new_client settings) 0 in
    let (tools, client2, w2) = list_tools transport render client1 w1 in
    (capabilities ≡ ok config.capabilities)
    × (tools ≡ ok (server_definitions render quote two_tools))
    × (client2 ≡ record (new_client settings) {
      request_id = (new_client settings).request_id + 1 + 1;
      capabilities = some config.capabilities;
      tools = server_definitions render quote two_tools;
      initialized = true;
    })
    × (w2 ≡ 0)
discovery_served_example = discovery_served render quote two_tools (new_client settings) 0

-- The name is taken.
registered_again : register_tool one_tool (named_tool "echo") failing ≡ none
unfolding get register_tool registered
registered_again = refl

commands-Orderly_example :
    let x =
      run_commands
        (logged (in_memory render quote two_tools))
        render
        is_zero
        (list_tools_command
          ∷ initialize_command
          ∷ call_tool_command "echo" none
          ∷ ping_command
          ∷ [])
        (new_client settings)
        ([], 0) in
    Orderly x.0 x.1.0
commands-Orderly_example =
    commands-Orderly (in_memory render quote two_tools) render is_zero settings
      (list_tools_command ∷ initialize_command ∷ call_tool_command "echo" none ∷ ping_command ∷ [])
      0
