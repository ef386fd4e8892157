-- ===== src/Realtime/Service.antt =====
-- The methods of `RealtimeSessionService` of src/electripy/ai/realtime/services.py. A tool call is two
-- operations, before and after the executor is awaited, since other methods may run meanwhile.
pub mod Keeps
mod Methods
pub mod Lifecycle
pub mod Log
mod Tests
use electripy_ai.Prelude.{
  ℕ, ◌+◌, String, Bool, true, false, not, ◌&&◌, Option, none, some, List, [], ◌∷◌, if◌then◌else◌,
}
use Prim.Native.String.{◌++◌}
use text.Mathlib.Text.{◌==◌}
use electripy_ai.Realtime.Domain.{
  SessionState, initialized, active, interrupted, waiting_on_tool, completed, failed, closed,
  EventKind, input_text, input_audio, output_text, output_audio, tool_call, tool_result,
  interrupt_kind, lifecycle, backpressure, Metadata, RealtimeConfig, OutputStreamChunk,
  ToolCallEvent, ToolResultEvent, BackpressureDirective, EventPayload, output_chunk, call_of,
  result_of, interrupt_of, lifecycle_of, backpressure_of, EventEnvelope, RealtimeSession,
}
use electripy_ai.Realtime.Store.{
  RealtimeError, session_state_error, tool_execution_error, no_tool_executor, Service, Result, M,
  ◌>>=◌, ◌>>◌, pure, throw, draw, save, get_session, on_event, on_error, append_event, transition,
}

-- `reason or default`.
or_default : String → String → String
or_default reason default = if reason == "" then default else reason

pub create_session : RealtimeConfig → Metadata → M RealtimeSession
create_session config metadata = do
  sid ← draw
  let session : RealtimeSession = record {
    session_id = sid;
    state = initialized;
    config = config;
    event_log = [];
    metadata = metadata;
    sequence_counter = 0;
  }
  save session
  pure session

pub start_session : ℕ → M RealtimeSession
start_session sid = do session ← get_session sid; transition session active "session started"

pub close_session : ℕ → M RealtimeSession
close_session sid = do session ← get_session sid; transition session closed "session closed"

pub complete_session : ℕ → M RealtimeSession
complete_session sid = do
  session ← get_session sid
  transition session completed "generation complete"

pub fail_session : ℕ → String → M RealtimeSession
fail_session sid reason = do
  session ← get_session sid
  transition session failed (or_default reason "session failed")

pub resume : ℕ → M RealtimeSession
resume sid = do session ← get_session sid; transition session active "resumed"

-- `_INGEST_REQUIRES_ACTIVE`.
pub requires_active : EventKind → Bool
requires_active input_text = true
requires_active input_audio = true
requires_active output_text = true
requires_active output_audio = true
requires_active _ = false

pub is_active : SessionState → Bool
is_active active = true
is_active _ = false

pub record_event : RealtimeSession → EventKind → EventPayload → M EventEnvelope
record_event session kind payload = do
  event_id ← draw
  let appended : EventEnvelope × RealtimeSession = append_event session event_id kind payload
  save appended.1
  on_event appended.0
  pure appended.0

pub ingest_event : ℕ → EventKind → EventPayload → M EventEnvelope
ingest_event sid kind payload = do
  session ← get_session sid
  if requires_active kind && not (is_active session.state)
      then throw (session_state_error session.state active)
      else record_event session kind payload

has_audio : List ℕ → Bool
has_audio [] = false
has_audio (x ∷ xs) = true

pub emit_output : ℕ → OutputStreamChunk → M EventEnvelope
emit_output sid chunk =
    ingest_event sid (if has_audio chunk.audio_bytes then output_audio else output_text)
      (output_chunk chunk)

pub interrupt : ℕ → String → Bool → M EventEnvelope
interrupt sid reason hard = do
  session ← get_session sid
  transition session interrupted (or_default reason "interrupted")
  ingest_event sid interrupt_kind (interrupt_of (record { reason = reason; hard = hard }))

-- `handle_tool_call` up to the `await`; `executor` says whether one is configured.
pub begin_tool_call : Bool → ℕ → ToolCallEvent → M EventEnvelope
begin_tool_call false sid call = throw no_tool_executor
begin_tool_call true sid call = do
  session ← get_session sid
  transition session waiting_on_tool ("tool:" ++ call.tool_name)
  ingest_event sid tool_call (call_of call)

-- What the executor did: a result, or an exception with its text.
pub data ToolOutcome : Type 0 where
  returned : ToolResultEvent → ToolOutcome
  raised : String → ToolOutcome

-- `handle_tool_call` from the `await` on. The session object that the method holds is the stored one,
-- since no method deletes a session.
pub end_tool_call : ℕ → ToolCallEvent → ToolOutcome → M ToolResultEvent
end_tool_call sid call (raised detail) = do
  on_error sid (tool_execution_error call.tool_name detail)
  session ← get_session sid
  transition session failed ("Tool '" ++ call.tool_name ++ "' failed: " ++ detail)
  throw (tool_execution_error call.tool_name detail)
end_tool_call sid call (returned result) = do
  ingest_event sid tool_result (result_of result)
  session ← get_session sid
  transition session active "tool completed"
  pure result

pub handle_tool_call : Bool → ℕ → ToolCallEvent → ToolOutcome → M ToolResultEvent
handle_tool_call executor sid call outcome = do
  begin_tool_call executor sid call
  end_tool_call sid call outcome

pub emit_backpressure : ℕ → BackpressureDirective → M EventEnvelope
emit_backpressure sid directive = ingest_event sid backpressure (backpressure_of directive)

-- One method call of some user of the service.
pub data Op : Type 0 where
  create : RealtimeConfig → Metadata → Op
  start close complete resumption : ℕ → Op
  failure : ℕ → String → Op
  ingest : ℕ → EventKind → EventPayload → Op
  output : ℕ → OutputStreamChunk → Op
  interruption : ℕ → String → Bool → Op
  tool_begins : Bool → ℕ → ToolCallEvent → Op
  tool_ends : ℕ → ToolCallEvent → ToolOutcome → Op
  slow_down : ℕ → BackpressureDirective → Op

pub perform : Op → Service → Service
perform (create config metadata) s = (create_session config metadata s).1
perform (start sid) s = (start_session sid s).1
perform (close sid) s = (close_session sid s).1
perform (complete sid) s = (complete_session sid s).1
perform (resumption sid) s = (resume sid s).1
perform (failure sid reason) s = (fail_session sid reason s).1
perform (ingest sid kind payload) s = (ingest_event sid kind payload s).1
perform (output sid chunk) s = (emit_output sid chunk s).1
perform (interruption sid reason hard) s = (interrupt sid reason hard s).1
perform (tool_begins executor sid call) s = (begin_tool_call executor sid call s).1
perform (tool_ends sid call outcome) s = (end_tool_call sid call outcome s).1
perform (slow_down sid directive) s = (emit_backpressure sid directive s).1

-- An exception ends its own call; the calls that follow go on from what it left.
pub run : Service → List Op → Service
run s [] = s
run s (op ∷ ops) = run (perform op s) ops
