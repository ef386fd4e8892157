-- ===== src/Realtime/Service/Tests.antt =====
-- Runs of the session service of src/electripy/ai/realtime/services.py, and the theorems at concrete
-- inputs.
use electripy_ai.Prelude.{◌≤◌, ◌≡◌, refl, true, some, List, [], ◌∷◌, arith}
use electripy_ai.Prelude.Dict.{lookup, insert}
use electripy_ai.Realtime.Domain.{
  initialized, closed, input_text, RealtimeConfig, ToolCallEvent, ToolResultEvent, InputStreamChunk,
  partial, input_chunk, RealtimeSession, valid_transition, can_transition_to, next_sequence,
}
use electripy_ai.Realtime.Store.{
  draw, save, get_session, on_state_change, on_event, on_error, append_event, transition,
}
use electripy_ai.Realtime.Service.{
  start_session, create_session, close_session, ingest_event, record_event, requires_active,
  is_active, begin_tool_call, end_tool_call, Op, create, start, close, ingest, tool_begins,
  tool_ends, returned, perform, run,
}
use electripy_ai.Realtime.Service.Log.{empty, InOrder, events-InOrder, replay, log_replays_state}
use electripy_ai.Realtime.Service.Lifecycle.{level, WellKeyed, level-run}

program : Unit {0}
unfolding lookup insert valid_transition can_transition_to next_sequence draw save get_session
    on_state_change on_event on_error append_event transition start_session create_session
    close_session ingest_event record_event requires_active is_active begin_tool_call end_tool_call
    perform run
program = tt

abbrev config : RealtimeConfig
config = record { model = "m"; timeout_seconds = 300; max_events = 0; metadata = [] }

abbrev chunk : InputStreamChunk
chunk = record { index = 0; text = "hi"; audio_bytes = []; status = partial; metadata = [] }

abbrev weather : ToolCallEvent
weather = record { call_id = "1"; tool_name = "weather"; arguments = []; metadata = [] }

abbrev sunny : ToolResultEvent
sunny = record { call_id = "1"; tool_name = "weather"; result = []; error_text = ""; metadata = [] }

-- The text before the start raises, and leaves no event.
abbrev opening : List Op
opening =
    create config []
    ∷ ingest 0 input_text (input_chunk chunk)
    ∷ start 0
    ∷ tool_begins true 0 weather
    ∷ []

abbrev whole : List Op
whole =
    create config []
    ∷ start 0
    ∷ tool_begins true 0 weather
    ∷ tool_ends 0 weather (returned sunny)
    ∷ []

waiting : (x : RealtimeSession) × (lookup 0 (run empty opening).sessions ≡ some x)
unfolding program
waiting = (_, refl)

events-InOrder_example : InOrder 0 waiting.0
events-InOrder_example = events-InOrder opening 0 waiting.0 waiting.1

log_replays_state_example : replay initialized waiting.0.event_log ≡ some waiting.0.state
log_replays_state_example =
    log_replays_state opening 0 waiting.0 (tt, (refl, (tt, (tt, tt)))) waiting.1

keyed : WellKeyed (run empty opening)
unfolding program
keyed = record { key = λ sid x e. ground arith }

ended :
    (x : RealtimeSession) × (lookup 0
        (run (run empty opening) (tool_ends 0 weather (returned sunny) ∷ close 0 ∷ [])).sessions
      ≡ some x)
unfolding program
ended = (_, refl)

ended_closed : ended.0.state ≡ closed
unfolding ended program
ended_closed = refl

level-run_example : level waiting.0.state ≤ level ended.0.state
unfolding program
level-run_example =
    level-run (run empty opening) (tool_ends 0 weather (returned sunny) ∷ close 0 ∷ []) 0 waiting.0
      ended.0 keyed (omega arith) waiting.1 ended.1
