-- ===== src/Realtime/Store.antt =====
-- The state of `RealtimeSessionService` of src/electripy/ai/realtime/services.py, with the store and
-- the observer of adapters.py, and the steps that its methods share. A method maps the service to
-- its result, or the exception that it raises, and the service afterwards. The store holds references, so a change of a session object is a change of
-- the stored session: the model saves the session again after each change.
use electripy_ai.Prelude.{
  ℕ, ◌+◌, String, not, Option, none, some, List, [], ◌∷◌, ◌++◌, if◌then◌else◌,
}
use electripy_ai.Prelude.Dict.{lookup, insert}
use electripy_ai.Realtime.Domain.{
  SessionState, EventKind, lifecycle, EventPayload, lifecycle_of, EventEnvelope, RealtimeSession,
  can_transition_to, next_sequence,
}

pub data RealtimeError : Type 0 where
  session_state_error : SessionState → SessionState → RealtimeError
  session_not_found_error : ℕ → RealtimeError
  tool_execution_error : String → String → RealtimeError
  no_tool_executor : RealtimeError

-- `InMemoryObserver`.
pub record Observer : Type 0 where
  pub state_changes : List (ℕ × SessionState × SessionState)
  pub events : List EventEnvelope
  pub errors : List (ℕ × RealtimeError)

-- `drawn` counts the identifiers that `uuid4` has given out.
pub record Service : Type 0 where
  pub sessions : List (ℕ × RealtimeSession)
  pub observer : Observer
  pub drawn : ℕ

pub data Result {ℓ} (A : Type ℓ) : Type ℓ where
  ok : A → Result A
  raise : RealtimeError → Result A

abbrev pub M : Type 0 → Type 0
M A = Service → Result A × Service

module _ {A B : Type 0} where
  abbrev pub continue : Result A → (A → M B) → M B
  continue (ok a) f s = f a s
  continue (raise e) f s = (raise e, s)

  infixl 5 ◌>>=◌ ◌>>◌
  abbrev pub ◌>>=◌ : M A → (A → M B) → M B
  ◌>>=◌ m f s = let (r, s') = m s in continue r f s'

  abbrev pub ◌>>◌ : M A → M B → M B
  m >> n = m >>= λ _. n

module _ {A : Type 0} where
  abbrev pub pure : A → M A
  pure a s = (ok a, s)

  abbrev pub throw : RealtimeError → M A
  throw e s = (raise e, s)

unfoldable pub draw : M ℕ
draw s = (ok s.drawn, record s { drawn = s.drawn + 1 })

unfoldable pub save : RealtimeSession → M (Unit {0})
save session s = (ok tt, record s { sessions = insert session.session_id session s.sessions })

unfoldable pub found : ℕ → Option RealtimeSession → M RealtimeSession
found sid none = throw (session_not_found_error sid)
found sid (some session) = pure session

unfoldable pub get_session : ℕ → M RealtimeSession
unfolding found
get_session sid s = found sid (lookup sid s.sessions) s

unfoldable pub on_state_change : ℕ → SessionState → SessionState → M (Unit {0})
on_state_change sid previous current s = (
  ok tt,
  record s {
    observer = record s.observer {
      state_changes = s.observer.state_changes ++ (sid, previous, current) ∷ [];
    };
  },
)

unfoldable pub on_event : EventEnvelope → M (Unit {0})
on_event envelope s = (
  ok tt,
  record s { observer = record s.observer { events = s.observer.events ++ envelope ∷ [] } },
)

unfoldable pub on_error : ℕ → RealtimeError → M (Unit {0})
on_error sid e s = (
  ok tt,
  record s { observer = record s.observer { errors = s.observer.errors ++ (sid, e) ∷ [] } },
)

-- `EventEnvelope(…, sequence=session.next_sequence())` and `session.event_log.append(envelope)`:
-- the envelope, and the session afterwards.
unfoldable pub append_event :
    RealtimeSession → ℕ → EventKind → EventPayload → EventEnvelope × RealtimeSession
append_event session event_id kind payload =
    let (seq, session') = next_sequence session in
    let envelope : EventEnvelope = record {
      event_id = event_id;
      session_id = session.session_id;
      kind = kind;
      payload = payload;
      sequence = seq;
    } in
    (envelope, record session' { event_log = session'.event_log ++ envelope ∷ [] })

unfoldable pub transition : RealtimeSession → SessionState → String → M RealtimeSession
transition session target reason =
    if not (can_transition_to session target)
    then throw (session_state_error session.state target)
    else do
      let moved = record session { state = target }
      save moved
      event_id ← draw
      let payload : EventPayload =
          lifecycle_of
            (record { previous_state = session.state; new_state = target; reason = reason })
      let logged = (append_event moved event_id lifecycle payload).1
      save logged
      on_state_change session.session_id session.state target
      pure logged
