-- ===== src/Realtime/Service/Lifecycle.antt =====
-- Where a session can go from where it is (src/electripy/ai/realtime/services.py, domain.py).
use electripy_ai.Prelude.{ℕ, ◌≤◌, ◌<◌, ◌≡◌, refl, String, Bool, true, false, some, List, arith, ◌⊎◌}
use electripy_ai.Prelude.Dict.{lookup}
use electripy_ai.Realtime.Domain.{
  SessionState, initialized, active, interrupted, waiting_on_tool, completed, failed, closed,
  RealtimeSession, valid_transition, can_transition_to, next_sequence,
}
use electripy_ai.Realtime.Store.{
  Service, ok, raise, session_state_error, append_event, get_session, transition, draw, save,
  on_state_change,
}
use electripy_ai.Realtime.Service.{start_session, interrupt, Op, run}
use electripy_ai.Realtime.Service.Keeps.{moved_session, Rules, Holds}
use electripy_ai.Realtime.Service.Methods.{All-Plain, run-Holds}

-- How far a session is: not started, running in one of three ways, over, closed.
pub level : SessionState → ℕ
level initialized = 0
level active = 1
level interrupted = 1
level waiting_on_tool = 1
level completed = 2
level failed = 2
level closed = 3

level-valid_transition : (a b : SessionState) → valid_transition a b ≡ true → level a ≤ level b
unfolding level valid_transition
level-valid_transition a b h = ground arith

-- Every session is stored under its own identifier.
pub record WellKeyed (s : Service) : Type 0 where
  pub key : (sid : ℕ) (x : RealtimeSession) → lookup sid s.sessions ≡ some x → x.session_id ≡ sid

module _ (from sid : ℕ) (n : ℕ) (lt : sid < n) where
  AtLeast : ℕ → RealtimeSession → Type 0
  AtLeast k x = k ≡ sid → from ≤ level x.state

  AtLeast-Rules : Rules AtLeast n false
  unfolding AtLeast append_event next_sequence can_transition_to
  AtLeast-Rules = record {
    fresh = λ k config metadata le same. absurd (omega arith);
    moves = λ k x target reason event_id named h valid same.
        omega (arith, h same, level-valid_transition x.state target valid);
    logs = λ k x event_id kind payload named h plain same. h same;
  }

-- A session never goes back: in a service where every session is stored under its own identifier,
-- after any method calls, whether they succeed or raise, a stored session whose identifier has been
-- drawn is at the level where it was, or further. So a running session is never INITIALIZED again,
-- a COMPLETED or FAILED one never runs again, and a CLOSED one stays CLOSED.
pub level-run :
    (s : Service) (ops : List Op) (sid : ℕ) (x y : RealtimeSession)
    → WellKeyed s
    → sid < s.drawn
    → lookup sid s.sessions ≡ some x
    → lookup sid (run s ops).sessions ≡ some y
    → level x.state ≤ level y.state
unfolding AtLeast
level-run s ops sid x y keyed lt before after =
    let start : Holds (AtLeast (level x.state) sid s.drawn lt) s.drawn s = record {
      drawn_from = omega arith;
      at = λ k z e. (keyed.key k z e, λ same. ground arith);
    } in
    let h = run-Holds (AtLeast-Rules (level x.state) sid s.drawn lt) ops s (All-Plain ops) start in
    (h.at sid y after).1 refl

-- `start_session` does not ask for the INITIALIZED state: a session that is interrupted, or that
-- waits on a tool, is started again and becomes ACTIVE.
start_session_restarts :
    (s : Service) (sid : ℕ) (x : RealtimeSession)
    → lookup sid s.sessions ≡ some x
    → (x.state ≡ interrupted) ⊎ (x.state ≡ waiting_on_tool)
    → (y : RealtimeSession) × ((start_session sid s).0 ≡ ok y)
      × (y.state ≡ active)
      × (y.session_id ≡ x.session_id)
unfolding start_session get_session transition can_transition_to valid_transition append_event
    next_sequence draw save on_state_change
start_session_restarts s sid x e running =
    (moved_session x active "session started" s.drawn, ground (arith, e), refl, refl)

-- A session that waits on a tool cannot be interrupted: the call raises, and the service stays as
-- it is.
interrupt_refused_during_tool :
    (s : Service) (sid : ℕ) (x : RealtimeSession) (reason : String) (hard : Bool)
    → lookup sid s.sessions ≡ some x
    → x.state ≡ waiting_on_tool
    → interrupt sid reason hard s ≡ (raise (session_state_error waiting_on_tool interrupted), s)
unfolding interrupt get_session transition can_transition_to valid_transition
interrupt_refused_during_tool s sid x reason hard e waits = ground (arith, e)
