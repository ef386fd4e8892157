-- ===== src/Realtime/Service/Log.antt =====
-- The event log of a session: sequence numbers, and what its lifecycle events say of the state
-- (src/electripy/ai/realtime/services.py, domain.py).
use electripy_ai.Prelude.{
  ℕ, suc, ◌+◌, ◌≡◌, refl, true, false, ◌&&◌, Option, none, some, List, [], ◌∷◌, ◌++◌, arith,
  Option-cases, inl, inr, ◌∙◌, length, length-snoc, All, All-append, ◌==◌, if◌then◌else◌,
}
use electripy_ai.Prelude.Dict.{lookup, lookup-nil}
use electripy_ai.Realtime.Domain.{
  SessionState, initialized, active, interrupted, waiting_on_tool, completed, failed, closed,
  EventKind, lifecycle, EventPayload, lifecycle_of, EventEnvelope, RealtimeSession,
  valid_transition, can_transition_to, next_sequence,
}
use electripy_ai.Realtime.Store.{Service, append_event}
use electripy_ai.Realtime.Service.{Op, run}
use electripy_ai.Realtime.Service.Keeps.{is_lifecycle, Rules, Holds}
use electripy_ai.Realtime.Service.Methods.{Plain, All-Plain, run-Holds}

abbrev pub empty : Service
empty = record {
  sessions = [];
  observer = record { state_changes = []; events = []; errors = [] };
  drawn = 0;
}

empty-Holds : (P : ℕ → RealtimeSession → Type 0) → Holds P 0 empty
empty-Holds P = record {
  drawn_from = omega arith;
  at = λ sid x e. cc (lookup-nil {V = RealtimeSession} sid);
}

-- The events carry the numbers from `n` on, in order.
abbrev pub NumberedFrom : ℕ → List EventEnvelope → Type 0
NumberedFrom n [] = Unit
NumberedFrom n (e ∷ es) = (e.sequence ≡ n) × NumberedFrom (suc n) es

NumberedFrom-append :
    (n : ℕ) (es : List EventEnvelope) (e : EventEnvelope)
    → NumberedFrom n es
    → e.sequence ≡ n + length es
    → NumberedFrom n (es ++ e ∷ [])
NumberedFrom-append n [] e h q = (omega arith, tt)
NumberedFrom-append n (f ∷ es) e h q = (h.0, NumberedFrom-append (suc n) es e h.1 (omega arith))

pub record InOrder (sid : ℕ) (x : RealtimeSession) : Type 0 where
  pub numbered : NumberedFrom 0 x.event_log
  pub counted : x.sequence_counter ≡ length x.event_log
  pub owned : All (λ (e : EventEnvelope). e.session_id ≡ sid) x.event_log

append-InOrder :
    (sid : ℕ) (x : RealtimeSession) (event_id : ℕ) (kind : EventKind) (payload : EventPayload)
    → x.session_id ≡ sid
    → InOrder sid x
    → InOrder sid (append_event x event_id kind payload).1
unfolding append_event next_sequence
append-InOrder sid x event_id kind payload named h = record {
  numbered = NumberedFrom-append 0 x.event_log _ h.numbered (omega (arith, h.counted));
  counted =
      omega (arith, h.counted, length-snoc x.event_log (append_event x event_id kind payload).0);
  owned = All-append _ x.event_log _ h.owned (named, tt);
}

InOrder-Rules : Rules InOrder 0 false
unfolding append_event next_sequence
InOrder-Rules = record {
  fresh = λ sid config metadata le. record { numbered = tt; counted = refl; owned = tt };
  moves = λ sid x target reason event_id named h valid.
      append-InOrder sid (record x { state = target }) event_id lifecycle _ named
        (record { numbered = h.numbered; counted = h.counted; owned = h.owned });
  logs = λ sid x event_id kind payload named h plain.
      append-InOrder sid x event_id kind payload named h;
}

-- After any method calls on a new service, whether they succeed or raise: the events in the log of
-- each stored session carry the numbers 0, 1, 2, … in order, all name that session, and its
-- counter is their number.
pub events-InOrder :
    (ops : List Op) (sid : ℕ) (x : RealtimeSession)
    → lookup sid (run empty ops).sessions ≡ some x
    → InOrder sid x
events-InOrder ops sid x e =
    ((run-Holds InOrder-Rules ops empty (All-Plain ops) (empty-Holds InOrder)).at sid x e).1

index : SessionState → ℕ
index initialized = 0
index active = 1
index interrupted = 2
index waiting_on_tool = 3
index completed = 4
index failed = 5
index closed = 6

-- One event moves the state that a reader of the log has in mind: a lifecycle event from that
-- state, along an allowed transition. Other events leave it, and any other lifecycle event is
-- inconsistent.
pub follow : SessionState → EventKind → EventPayload → Option SessionState
unfolding index
follow s lifecycle (lifecycle_of change) =
    if (index change.previous_state == index s) && valid_transition s change.new_state
    then some change.new_state
    else none
follow s lifecycle _ = none
follow s _ payload = some s

pub replay : SessionState → List EventEnvelope → Option SessionState
replay s [] = some s
replay s (e ∷ es) = elim (follow s e.kind e.payload) [ none ↦ none | some t ↦ replay t es ]

replay-snoc :
    (s t : SessionState) (es : List EventEnvelope) (e : EventEnvelope)
    → replay s es ≡ some t
    → replay s (es ++ e ∷ []) ≡ follow t e.kind e.payload
unfolding replay
replay-snoc s t [] e h = ground arith
replay-snoc s t (f ∷ es) e h = elim (Option-cases (follow s f.kind f.payload)) [
  | inl q ↦ ground arith
  | inr (u, q) ↦ ground (arith, replay-snoc u t es e (ground arith))
]

follow_plain :
    (s : SessionState) (kind : EventKind) (payload : EventPayload)
    → (is_lifecycle kind && true) ≡ false
    → follow s kind payload ≡ some s
unfolding follow
follow_plain s kind payload h = ground arith

abbrev Replays : ℕ → RealtimeSession → Type 0
Replays sid x = replay initialized x.event_log ≡ some x.state

Replays-Rules : Rules Replays 0 true
unfolding append_event next_sequence
Replays-Rules = record {
  fresh = λ sid config metadata le. unfold replay in refl;
  moves = λ sid x target reason event_id named h valid.
      replay-snoc initialized x.state x.event_log _ h
      ∙ unfold follow can_transition_to in ground arith;
  logs = λ sid x event_id kind payload named h plain.
      replay-snoc initialized x.state x.event_log _ h ∙ follow_plain x.state kind payload plain;
}

-- After any method calls on a new service, whether they succeed or raise, none of which ingests a
-- lifecycle event of the caller's own making: the lifecycle events in the log of each stored
-- session, read in order from INITIALIZED, are a path of allowed transitions, each starting where
-- the last one ended, and the path ends in the session's state.
pub log_replays_state :
    (ops : List Op) (sid : ℕ) (x : RealtimeSession)
    → All (Plain true) ops
    → lookup sid (run empty ops).sessions ≡ some x
    → replay initialized x.event_log ≡ some x.state
log_replays_state ops sid x plain e =
    ((run-Holds Replays-Rules ops empty plain (empty-Holds Replays)).at sid x e).1
