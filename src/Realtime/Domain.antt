-- ===== src/Realtime/Domain.antt =====
-- The data of src/electripy/ai/realtime/domain.py. Identifiers are numbers: the n-th value that
-- `uuid4` draws is n, so that draws differ. Metadata and argument dictionaries hold their values as
-- JSON text. Timestamps are left out; nothing reads them.
use electripy_ai.Prelude.{ℕ, ◌+◌, String, Bool, true, false, List}

pub data SessionState : Type 0 where
  initialized active interrupted waiting_on_tool completed failed closed : SessionState

pub data EventKind : Type 0 where
  input_text input_audio output_text output_audio tool_call tool_result interrupt_kind lifecycle
        error backpressure :
      EventKind

pub data ChunkStatus : Type 0 where
  partial final : ChunkStatus

abbrev pub Metadata : Type 0
Metadata = List (String × String)

pub record RealtimeConfig : Type 0 where
  pub model : String
  pub timeout_seconds : ℕ
  pub max_events : ℕ
  pub metadata : Metadata

pub record InputStreamChunk : Type 0 where
  pub index : ℕ
  pub text : String
  pub audio_bytes : List ℕ
  pub status : ChunkStatus
  pub metadata : Metadata

pub record OutputStreamChunk : Type 0 where
  pub index : ℕ
  pub text : String
  pub audio_bytes : List ℕ
  pub status : ChunkStatus
  pub metadata : Metadata

pub record ToolCallEvent : Type 0 where
  pub call_id : String
  pub tool_name : String
  pub arguments : Metadata
  pub metadata : Metadata

pub record ToolResultEvent : Type 0 where
  pub call_id : String
  pub tool_name : String
  pub result : Metadata
  pub error_text : String
  pub metadata : Metadata

pub record InterruptEvent : Type 0 where
  pub reason : String
  pub hard : Bool

pub record SessionLifecycleEvent : Type 0 where
  pub previous_state : SessionState
  pub new_state : SessionState
  pub reason : String

pub record BackpressureDirective : Type 0 where
  pub queue_depth : ℕ
  pub recommended_delay_ms : ℕ
  pub reason : String

pub record RealtimeErrorPayload : Type 0 where
  pub code : String
  pub message : String
  pub recoverable : Bool

pub data EventPayload : Type 0 where
  input_chunk : InputStreamChunk → EventPayload
  output_chunk : OutputStreamChunk → EventPayload
  call_of : ToolCallEvent → EventPayload
  result_of : ToolResultEvent → EventPayload
  interrupt_of : InterruptEvent → EventPayload
  lifecycle_of : SessionLifecycleEvent → EventPayload
  backpressure_of : BackpressureDirective → EventPayload
  error_of : RealtimeErrorPayload → EventPayload

pub record EventEnvelope : Type 0 where
  pub event_id : ℕ
  pub session_id : ℕ
  pub kind : EventKind
  pub payload : EventPayload
  pub sequence : ℕ

pub record RealtimeSession : Type 0 where
  pub session_id : ℕ
  pub state : SessionState
  pub config : RealtimeConfig
  pub event_log : List EventEnvelope
  pub metadata : Metadata
  pub sequence_counter : ℕ

-- `VALID_TRANSITIONS`.
unfoldable pub valid_transition : SessionState → SessionState → Bool
valid_transition initialized active = true
valid_transition initialized closed = true
valid_transition initialized failed = true
valid_transition active interrupted = true
valid_transition active waiting_on_tool = true
valid_transition active completed = true
valid_transition active failed = true
valid_transition active closed = true
valid_transition interrupted active = true
valid_transition interrupted failed = true
valid_transition interrupted closed = true
valid_transition waiting_on_tool active = true
valid_transition waiting_on_tool failed = true
valid_transition waiting_on_tool closed = true
valid_transition completed closed = true
valid_transition failed closed = true
valid_transition _ _ = false

unfoldable pub can_transition_to : RealtimeSession → SessionState → Bool
can_transition_to session target = valid_transition session.state target

unfoldable pub next_sequence : RealtimeSession → ℕ × RealtimeSession
next_sequence session =
    (session.sequence_counter, record session { sequence_counter = session.sequence_counter + 1 })
