-- ===== src/Realtime/Service/Keeps.antt =====
-- Predicates of single sessions that every method keeps, one rule for each way in which the methods
-- of src/electripy/ai/realtime/services.py are built.
use electripy_ai.Prelude.{
  ℕ, ◌≤◌, ◌≡◌, refl, String, Bool, true, false, ◌&&◌, Option, none, some, [], arith, Bool-cases,
  inl, inr, ◌==◌, subst, if◌then◌else◌,
}
use electripy_ai.Prelude.Dict.{lookup}
use electripy_ai.Realtime.Domain.{
  SessionState, initialized, EventKind, lifecycle, lifecycle_of, Metadata, RealtimeConfig,
  EventPayload, RealtimeSession, can_transition_to,
}
use electripy_ai.Realtime.Store
use electripy_ai.Realtime.Store.{
  RealtimeError, Service, Result, ok, raise, M, continue, ◌>>=◌, pure, throw, draw, save,
  get_session, on_state_change, on_event, on_error, append_event, transition,
}

-- The kind that only `_transition` records.
abbrev pub is_lifecycle : EventKind → Bool
is_lifecycle lifecycle = true
is_lifecycle _ = false

-- A session that `create_session` makes, and what a transition makes of one.
abbrev pub new_session : ℕ → RealtimeConfig → Metadata → RealtimeSession
new_session sid config metadata = record {
  session_id = sid;
  state = initialized;
  config = config;
  event_log = [];
  metadata = metadata;
  sequence_counter = 0;
}

abbrev pub moved_session : RealtimeSession → SessionState → String → ℕ → RealtimeSession
moved_session x target reason event_id =
    (append_event (record x { state = target }) event_id lifecycle
      (lifecycle_of (record { previous_state = x.state; new_state = target; reason = reason }))).1

-- The predicate holds of new sessions numbered from `base` on, and every change keeps it. If
-- `strict`, recorded events need to keep it only if they are no lifecycle events.
pub record Rules (P : ℕ → RealtimeSession → Type 0) (base : ℕ) (strict : Bool) : Type 0 where
  pub fresh :
      (sid : ℕ) (config : RealtimeConfig) (metadata : Metadata)
      → base ≤ sid
      → P sid (new_session sid config metadata)
  pub moves :
      (sid : ℕ) (x : RealtimeSession) (target : SessionState) (reason : String) (event_id : ℕ)
      → x.session_id ≡ sid
      → P sid x
      → can_transition_to x target ≡ true
      → P sid (moved_session x target reason event_id)
  pub logs :
      (sid : ℕ) (x : RealtimeSession) (event_id : ℕ) (kind : EventKind) (payload : EventPayload)
      → x.session_id ≡ sid
      → P sid x
      → (is_lifecycle kind && strict) ≡ false
      → P sid (append_event x event_id kind payload).1

pub record Holds (P : ℕ → RealtimeSession → Type 0) (base : ℕ) (s : Service) : Type 0 where
  pub drawn_from : base ≤ s.drawn
  pub at :
      (sid : ℕ) (x : RealtimeSession)
      → lookup sid s.sessions ≡ some x
      → (x.session_id ≡ sid) × P sid x

pub record Keeps {A : Type 0} (P : ℕ → RealtimeSession → Type 0) (base : ℕ) (m : M A) : Type 0 where
  pub after : (s : Service) → Holds P base s → Holds P base (m s).1

-- The service keeps the predicate when a session that satisfies it is saved, and whatever else
-- changes but the sessions.
pub put-Holds :
    {P : ℕ → RealtimeSession → Type 0} {base : ℕ} (sid : ℕ) (x : RealtimeSession) (s t : Service)
    → Holds P base s
    → s.drawn ≤ t.drawn
    → x.session_id ≡ sid
    → P sid x
    → ((j : ℕ) → lookup j t.sessions ≡ (if x.session_id == j then some x else lookup j s.sessions))
    → Holds P base t
put-Holds {P} sid x s t h le named px e = record {
  drawn_from = omega (arith, h.drawn_from);
  at = λ j y found. stored j y (h.at j y) (rw (e j) at found);
}
  where
    stored :
        (j : ℕ) (y : RealtimeSession)
        → (lookup j s.sessions ≡ some y → (y.session_id ≡ j) × P j y)
        → (if x.session_id == j then some x else lookup j s.sessions) ≡ some y
        → (y.session_id ≡ j) × P j y
    stored j y old found = elim (Bool-cases (x.session_id == j)) [
      | inl here ↦
          let same : x ≡ y = ground arith in
          let key : sid ≡ j = ground arith in
          (ground arith, subst (λ z. P j z) same (subst (λ k. P k x) key px))
      | inr there ↦ old (rw there at found)
    ]

pub same-Holds :
    {P : ℕ → RealtimeSession → Type 0} {base : ℕ} (s t : Service)
    → Holds P base s
    → s.drawn ≤ t.drawn
    → t.sessions ≡ s.sessions
    → Holds P base t
same-Holds s t h le e = record {
  drawn_from = omega (arith, h.drawn_from);
  at = λ j y found. h.at j y (rw e at found);
}

module _ {P : ℕ → RealtimeSession → Type 0} {base : ℕ} {A : Type 0} where
  pub Keeps-pure : (a : A) → Keeps P base (pure a)
  Keeps-pure a = record { after = λ s h. h }

  pub Keeps-throw : (e : RealtimeError) → Keeps P base (throw {A = A} e)
  Keeps-throw e = record { after = λ s h. h }

  pub Keeps-if :
      (b : Bool) (m n : M A) → Keeps P base m → Keeps P base n → Keeps P base (if b then m else n)
  Keeps-if true m n km kn = km
  Keeps-if false m n km kn = kn

module _ {P : ℕ → RealtimeSession → Type 0} {base : ℕ} where
  pub Keeps-on_error : (sid : ℕ) (e : RealtimeError) → Keeps P base (on_error sid e)
  unfolding on_error
  Keeps-on_error sid e = record { after = λ s h. same-Holds s _ h (omega arith) refl }

module _ {P : ℕ → RealtimeSession → Type 0} {base : ℕ} {A B : Type 0} where
  Keeps-continue :
      (r : Result A) (f : A → M B)
      → ((a : A) → Keeps P base (f a))
      → (s : Service) → Holds P base s
      → Holds P base (continue r f s).1
  Keeps-continue (ok a) f kf s h = (kf a).after s h
  Keeps-continue (raise e) f kf s h = h

  pub Keeps-bind :
      (m : M A) (f : A → M B)
      → Keeps P base m
      → ((a : A) → Keeps P base (f a))
      → Keeps P base (m >>= f)
  Keeps-bind m f km kf = record {
    after = λ s h. let (r, s') = m s in Keeps-continue r f kf s' (km.after s h);
  }

module _ {P : ℕ → RealtimeSession → Type 0} {base : ℕ} {B : Type 0} where
  -- What a method does with a session may use that the predicate holds of it.
  pub Keeps-get_session :
      (sid : ℕ) (f : RealtimeSession → M B)
      → ((x : RealtimeSession) → x.session_id ≡ sid → P sid x → Keeps P base (f x))
      → Keeps P base (get_session sid >>= f)
  unfolding get_session
  Keeps-get_session sid f kf = record {
    after = λ s h. found s h (lookup sid s.sessions) (λ x e. h.at sid x e);
  }
    where
      found :
          (s : Service)
          → Holds P base s
          → (o : Option RealtimeSession)
          → ((x : RealtimeSession) → o ≡ some x → (x.session_id ≡ sid) × P sid x)
          → Holds P base (continue (Store.found sid o s).0 f (Store.found sid o s).1).1
      found s h none at = h
      found s h (some x) at = (kf x (at x refl).0 (at x refl).1).after s h
