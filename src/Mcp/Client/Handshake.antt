-- ===== src/Mcp/Client/Handshake.antt =====
-- The log of what a client sends over any transport (src/electripy/ai/mcp/services.py).
pub mod Kept
use text.Mathlib.Text.{◌==◌ as str_eq}
use electripy_ai.Prelude.{
  ℕ, ◌+◌, ◌<◌, ◌≡◌, ◌≢◌, refl, sym, ap, ◌∙◌, subst, if◌then◌else◌, String, Bool, true, false, ◌||◌,
  Option, none, some, List, [], ◌∷◌, ◌⊎◌, inl, inr, arith,
}
use electripy_ai.Prelude.Json.{Json, str, object, Fields, no_fields, field, get_field}
use electripy_ai.Mcp.Server.{or_no_fields}
use electripy_ai.Mcp.Domain.{
  McpRequest, McpResponse, McpErrorData, RequestId, number, named, McpServerCapabilities,
  McpToolDefinition, McpClientSettings,
}
use electripy_ai.Mcp.Client.{
  Sent, received, mcp_error, exception, Transport, McpClientError, Result, ok, raise, McpClient,
  new_client, next_id, with_id, initialized_notification, is_error, checked, check_sent,
  server_error, capabilities_of, initialize_params, tools_of, on_tools, listed, notified, accepted,
  initialize, ponged, ping, request_tools, list_tools, request_call, call_tool,
}

-- The messages sent and what came back, the last one first.
abbrev pub Log : Type 0
Log = List (McpRequest × Sent)

-- A transport that keeps a log.
abbrev pub logged : {W : Type 0} → Transport W → Transport (Log × W)
logged transport request (log, w) =
    let (sent, w1) = transport request w in (sent, ((request, sent) ∷ log, w1))

pub data Command : Type 0 where
  initialize_command list_tools_command ping_command : Command
  call_tool_command : String → Option Fields → Command

module _ {W : Type 0} (transport : Transport W) (render : Json → String)
    (is_zero : String → Bool) where
  abbrev pub run_command : Command → McpClient → W → McpClient × W
  run_command initialize_command client w =
      let (result, client1, w1) = initialize transport client w in (client1, w1)
  run_command list_tools_command client w =
      let (result, client1, w1) = list_tools transport render client w in (client1, w1)
  run_command ping_command client w =
      let (result, client1, w1) = ping transport client w in (client1, w1)
  run_command (call_tool_command name arguments) client w =
      let (result, client1, w1) = call_tool transport render is_zero name arguments client w in
      (client1, w1)

  abbrev pub run_commands : List Command → McpClient → W → McpClient × W
  run_commands [] client w = (client, w)
  run_commands (command ∷ rest) client w =
      let (client1, w1) = run_command command client w in run_commands rest client1 w1

-- The numbers of the requests, each smaller than the one sent after it, the last one below `n`.
abbrev pub Numbered : ℕ → Log → Type 0
Numbered n [] = Unit
Numbered n ((q, s) ∷ log) = elim q.id [
  | none ↦ Numbered n log
  | some (number k) ↦ (k < n) × Numbered k log
  | some (named name) ↦ ⊥
]

-- A request to initialise that got a response without an error.
abbrev pub Welcomed : McpRequest → Sent → Type 0
Welcomed q (received response) = (q.method ≡ "initialize") × (is_error response ≡ false)
Welcomed q s = ⊥

abbrev pub AnyWelcomed : Log → Type 0
AnyWelcomed [] = ⊥
AnyWelcomed ((q, s) ∷ log) = Welcomed q s ⊎ AnyWelcomed log

-- The notification that follows it, which got a response too.
abbrev pub Handshaken : Log → Type 0
Handshaken [] = ⊥
Handshaken ((q, s) ∷ log) =
    ((q.method ≡ "notifications/initialized") × AnyWelcomed log) ⊎ Handshaken log

abbrev pub HandshakeIf : Bool → Log → Type 0
HandshakeIf true log = Handshaken log
HandshakeIf false log = Unit

abbrev pub is_tool_request : McpRequest → Bool
is_tool_request q = str_eq q.method "tools/list" || str_eq q.method "tools/call"

abbrev pub ToolsAfterHandshake : Log → Type 0
ToolsAfterHandshake [] = Unit
ToolsAfterHandshake ((q, s) ∷ log) = HandshakeIf (is_tool_request q) log × ToolsAfterHandshake log

-- The log of a client.
pub record Orderly (client : McpClient) (log : Log) : Type 0 where
  pub numbered : Numbered (client.request_id + 1) log
  pub tools_after : ToolsAfterHandshake log
  pub handshaken : HandshakeIf client.initialized log
