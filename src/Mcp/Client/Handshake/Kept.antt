-- ===== src/Mcp/Client/Handshake/Kept.antt =====
-- Every operation of the client of src/electripy/ai/mcp/services.py keeps its log orderly.
use electripy_ai.Prelude.{
  ◌≡◌, ◌≢◌, refl, sym, ap, ◌∙◌, subst, by_cases, String, Bool, true, false, Option, none, some,
  List, [], ◌∷◌, inl, inr, arith,
}
use electripy_ai.Prelude.Json.{Json, str, object, Fields, no_fields, field, get_field}
use electripy_ai.Mcp.Server.{or_no_fields}
use electripy_ai.Mcp.Domain.{
  McpRequest, McpResponse, McpErrorData, McpServerCapabilities, McpToolDefinition,
  McpClientSettings,
}
use electripy_ai.Mcp.Client.{
  Sent, received, mcp_error, exception, Transport, McpClientError, Result, ok, raise, McpClient,
  new_client, next_id, with_id, initialized_notification, is_error, checked, check_sent,
  server_error, capabilities_of, initialize_params, tools_of, on_tools, listed, notified, accepted,
  initialize, ponged, ping, request_tools, list_tools, request_call, call_tool,
}
use electripy_ai.Mcp.Client.Handshake.{
  Log, logged, Command, initialize_command, list_tools_command, ping_command, call_tool_command,
  run_command, run_commands, Welcomed, AnyWelcomed, HandshakeIf, is_tool_request, Orderly,
}

later :
    (b : Bool) (q : McpRequest) (s : Sent) (log : Log)
    → HandshakeIf b log
    → HandshakeIf b ((q, s) ∷ log)
later true q s log h = inr h
later false q s log h = tt

-- One request is sent with the next number.
sent_next :
    (client : McpClient) (method : String) (params : Option Fields) (s : Sent) (log : Log)
    → HandshakeIf (is_tool_request (with_id (next_id client) method params)) log
    → Orderly client log
    → Orderly (next_id client) ((with_id (next_id client) method params, s) ∷ log)
unfolding next_id with_id
sent_next client method params s log allowed o = record {
  numbered = (omega arith, o.numbered);
  tools_after = (allowed, o.tools_after);
  handshaken = later client.initialized _ s log o.handshaken;
}

raise≢ok : {A : Type 0} {e : McpClientError} {a : A} → raise e ≢ ok a
raise≢ok h = subst (λ r. elim r [ ok a ↦ ⊥ | raise e ↦ Unit {0} ]) h tt

Welcomed-checked :
    (f : String → McpClientError) (q : McpRequest) (r : McpResponse) (e : Option McpErrorData)
    (fs : Fields)
    → r.error ≡ e
    → checked f r ≡ ok fs
    → q.method ≡ "initialize"
    → Welcomed q (received r)
unfolding checked is_error
Welcomed-checked f q r none fs p h m =
    (m, ap (λ (e : Option McpErrorData). elim e [ none ↦ false | some d ↦ true ]) p)
Welcomed-checked f q r (some e) fs p h m =
    let refusal : checked f r ≡ raise (f e.message) =
      ap
        (λ (e : Option McpErrorData). elim e [
          | none ↦ ok (or_no_fields r.result)
          | some d ↦ raise (f d.message)
        ])
        p in
    absurd (raise≢ok (sym refusal ∙ h))

Welcomed-check_sent :
    (f : String → McpClientError) (q : McpRequest) (s : Sent) (fs : Fields)
    → check_sent f s ≡ ok fs
    → q.method ≡ "initialize"
    → Welcomed q s
unfolding check_sent
Welcomed-check_sent f q (received r) fs h m = Welcomed-checked f q r r.error fs refl h m
Welcomed-check_sent f q (mcp_error message) fs h m = absurd (raise≢ok h)
Welcomed-check_sent f q (exception message) fs h m = absurd (raise≢ok h)

abbrev Held : {R W : Type 0} → R × McpClient × (Log × W) → Type 0
Held x = Orderly x.1 x.2.0

module _ {W : Type 0} (transport : Transport W) where
  notified-Orderly :
      (capabilities : McpServerCapabilities) (client : McpClient) (s : Sent) (log : Log) (w : W)
      → AnyWelcomed log
      → Orderly client log
      → Held (
          notified
            (logged transport)
            capabilities
            client
            (s, ((initialized_notification, s) ∷ log, w)))
  unfolding notified initialized_notification
  notified-Orderly capabilities client (received r) log w welcome o = record {
    numbered = o.numbered;
    tools_after = (tt, o.tools_after);
    handshaken = inl (refl, welcome);
  }
  notified-Orderly capabilities client (mcp_error message) log w welcome o = record {
    numbered = o.numbered;
    tools_after = (tt, o.tools_after);
    handshaken = later client.initialized _ _ log o.handshaken;
  }
  notified-Orderly capabilities client (exception message) log w welcome o = record {
    numbered = o.numbered;
    tools_after = (tt, o.tools_after);
    handshaken = later client.initialized _ _ log o.handshaken;
  }

  accepted-Orderly :
      (client : McpClient) (result : Result Fields) (log : Log) (w : W)
      → ((fs : Fields) → result ≡ ok fs → AnyWelcomed log)
      → Orderly client log
      → Held (accepted (logged transport) client result (log, w))
  unfolding accepted
  accepted-Orderly client (raise e) log w welcome o = o
  accepted-Orderly client (ok fs) log w welcome o =
      let capabilities = capabilities_of (get_field "capabilities" fs) in
      let client1 = record client { capabilities = some capabilities } in
      let (sent, w1) = transport initialized_notification w in
      notified-Orderly capabilities client1 sent log w1 (welcome fs refl)
        (record { numbered = o.numbered; tools_after = o.tools_after; handshaken = o.handshaken })

  initialize-Orderly :
      (client : McpClient) (log : Log) (w : W)
      → Orderly client log
      → Held (initialize (logged transport) client (log, w))
  unfolding initialize with_id
  initialize-Orderly client log w o =
      let params = some (initialize_params (next_id client).settings) in
      let q = with_id (next_id client) "initialize" params in
      let (s, w1) = transport q w in
      accepted-Orderly (next_id client) (check_sent (server_error "initialize") s) ((q, s) ∷ log) w1
        (λ fs h. inl (Welcomed-check_sent (server_error "initialize") q s fs h refl))
        (sent_next client "initialize" params s log tt o)

  ponged-Orderly :
      (client : McpClient) (s : Sent) (log : Log) (w : W)
      → Orderly client log
      → Held (ponged (logged transport) client (s, (log, w)))
  unfolding ponged
  ponged-Orderly client (received r) log w o = o
  ponged-Orderly client (mcp_error message) log w o = o
  ponged-Orderly client (exception message) log w o = o

  ping-Orderly :
      (client : McpClient) (log : Log) (w : W)
      → Orderly client log
      → Held (ping (logged transport) client (log, w))
  unfolding ping with_id
  ping-Orderly client log w o =
      let q = with_id (next_id client) "ping" none in
      let (s, w1) = transport q w in
      ponged-Orderly (next_id client) s ((q, s) ∷ log) w1 (sent_next client "ping" none s log tt o)

  module _ (render : Json → String) where
    listed-Orderly :
        (client : McpClient) (tools : Option (List McpToolDefinition)) (log : Log) (w : W)
        → Orderly client log
        → Held (listed render {W = Log × W} client tools (log, w))
    unfolding listed
    listed-Orderly client none log w o = o
    listed-Orderly client (some tools) log w o = record {
      numbered = o.numbered;
      tools_after = o.tools_after;
      handshaken = o.handshaken;
    }

    on_tools-Orderly :
        (client : McpClient) (result : Result Fields) (log : Log) (w : W)
        → Orderly client log
        → Held (on_tools render {W = Log × W} client result (log, w))
    unfolding on_tools
    on_tools-Orderly client (raise e) log w o = o
    on_tools-Orderly client (ok fs) log w o =
        listed-Orderly client (tools_of render (get_field "tools" fs)) log w o

    list_tools-Orderly :
        (client : McpClient) (log : Log) (w : W)
        → Orderly client log
        → Held (list_tools (logged transport) render client (log, w))
    unfolding list_tools request_tools with_id
    list_tools-Orderly client log w o =
        let q = with_id (next_id client) "tools/list" none in
        let (s, w1) = transport q w in
        by_cases Held client.initialized
          (λ h.
            on_tools-Orderly (next_id client) (check_sent (server_error "tools/list") s)
              ((q, s) ∷ log) w1
              (sent_next client "tools/list" none s log
                (subst (λ b. HandshakeIf b log) h o.handshaken) o))
          (λ h. o)

    call_tool-Orderly :
        (is_zero : String → Bool) (name : String) (arguments : Option Fields) (client : McpClient)
        (log : Log) (w : W)
        → Orderly client log
        → Held (call_tool (logged transport) render is_zero name arguments client (log, w))
    unfolding call_tool request_call with_id
    call_tool-Orderly is_zero name arguments client log w o =
        let params =
          field "name" (str name) (field "arguments" (object (or_no_fields arguments)) no_fields) in
        by_cases Held client.initialized
          (λ h.
            sent_next client "tools/call" (some params) _ log
              (subst (λ b. HandshakeIf b log) h o.handshaken) o)
          (λ h. o)

    run_command-Orderly :
        (is_zero : String → Bool) (command : Command) (client : McpClient) (log : Log) (w : W)
        → Orderly client log
        → let x = run_command (logged transport) render is_zero command client (log, w) in
          Orderly x.0 x.1.0
    run_command-Orderly is_zero initialize_command client log w o =
        initialize-Orderly client log w o
    run_command-Orderly is_zero list_tools_command client log w o =
        list_tools-Orderly client log w o
    run_command-Orderly is_zero ping_command client log w o = ping-Orderly client log w o
    run_command-Orderly is_zero (call_tool_command name arguments) client log w o =
        call_tool-Orderly is_zero name arguments client log w o

    run_commands-Orderly :
        (is_zero : String → Bool) (commands : List Command) (client : McpClient) (x : Log × W)
        → Orderly client x.0
        → let y = run_commands (logged transport) render is_zero commands client x in
          Orderly y.0 y.1.0
    run_commands-Orderly is_zero [] client x o = o
    run_commands-Orderly is_zero (command ∷ rest) client x o =
        let y = run_command (logged transport) render is_zero command client x in
        run_commands-Orderly is_zero rest y.0 y.1
          (run_command-Orderly is_zero command client x.0 x.1 o)

-- Over any transport, in whatever order the operations of a new client are called: the numbers of its
-- requests grow, and each `tools/list` and `tools/call` is sent after an `initialize` that was answered
-- without an error and the notification that followed it.
pub commands-Orderly :
    {W : Type 0} (transport : Transport W) (render : Json → String) (is_zero : String → Bool)
    (settings : McpClientSettings) (commands : List Command) (w : W)
    → let x =
        run_commands (logged transport) render is_zero commands (new_client settings) ([], w) in
      Orderly x.0 x.1.0
unfolding new_client
commands-Orderly transport render is_zero settings commands w =
    run_commands-Orderly transport render is_zero commands (new_client settings) ([], w)
      (record { numbered = tt; tools_after = tt; handshaken = tt })
