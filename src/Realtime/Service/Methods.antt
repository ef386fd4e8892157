-- ===== src/Realtime/Service/Methods.antt =====
-- Every method of src/electripy/ai/realtime/services.py keeps a predicate of sessions that new
-- sessions satisfy and that transitions and recorded events keep.
use electripy_ai.Prelude.{
  ℕ, ◌≡◌, refl, String, Bool, true, false, not, ◌&&◌, List, [], ◌∷◌, arith, All, if◌then◌else◌,
}
use electripy_ai.Prelude.Dict.{lookup-insert}
use electripy_ai.Realtime.Domain.{
  SessionState, EventKind, output_text, output_audio, tool_call, tool_result, interrupt_kind,
  backpressure, Metadata, RealtimeConfig, OutputStreamChunk, ToolCallEvent, EventPayload,
  output_chunk, RealtimeSession, can_transition_to, next_sequence,
}
use electripy_ai.Realtime.Store.{
  Service, ◌>>=◌, draw, save, get_session, on_state_change, on_event, append_event, transition,
}
use electripy_ai.Realtime.Service.{
  create_session, start_session, close_session, complete_session, fail_session, resume, has_audio,
  requires_active, is_active, record_event, ingest_event, emit_output, interrupt, begin_tool_call,
  ToolOutcome, returned, raised, end_tool_call, emit_backpressure, Op, create, start, close,
  complete, resumption, failure, ingest, output, interruption, tool_begins, tool_ends, slow_down,
  perform, run,
}
use electripy_ai.Realtime.Service.Keeps.{
  is_lifecycle, new_session, moved_session, Rules, Holds, Keeps, put-Holds, Keeps-pure, Keeps-throw,
  Keeps-if, Keeps-on_error, Keeps-bind, Keeps-get_session,
}

-- If `strict`, a call that records no lifecycle event of its own making.
abbrev pub Plain : Bool → Op → Type 0
Plain strict (ingest sid kind payload) = (is_lifecycle kind && strict) ≡ false
Plain strict _ = Unit

plain_output :
    (strict : Bool) (chunk : OutputStreamChunk)
    → (is_lifecycle (if has_audio chunk.audio_bytes then output_audio else output_text) && strict)
      ≡ false
plain_output strict chunk = ground arith

pub All-Plain : (ops : List Op) → All (Plain false) ops
All-Plain [] = tt
All-Plain (ingest sid kind payload ∷ ops) = (ground arith, All-Plain ops)
All-Plain (create config metadata ∷ ops) = (tt, All-Plain ops)
All-Plain (start sid ∷ ops) = (tt, All-Plain ops)
All-Plain (close sid ∷ ops) = (tt, All-Plain ops)
All-Plain (complete sid ∷ ops) = (tt, All-Plain ops)
All-Plain (resumption sid ∷ ops) = (tt, All-Plain ops)
All-Plain (failure sid reason ∷ ops) = (tt, All-Plain ops)
All-Plain (output sid chunk ∷ ops) = (tt, All-Plain ops)
All-Plain (interruption sid reason hard ∷ ops) = (tt, All-Plain ops)
All-Plain (tool_begins executor sid call ∷ ops) = (tt, All-Plain ops)
All-Plain (tool_ends sid call outcome ∷ ops) = (tt, All-Plain ops)
All-Plain (slow_down sid directive ∷ ops) = (tt, All-Plain ops)

module _ {P : ℕ → RealtimeSession → Type 0} {base : ℕ} {strict : Bool}
    (rules : Rules P base strict) where
  Keeps-transition :
      (sid : ℕ) (x : RealtimeSession) (target : SessionState) (reason : String)
      → x.session_id ≡ sid
      → P sid x
      → Keeps P base (transition x target reason)
  unfolding transition draw save on_state_change append_event next_sequence
  Keeps-transition sid x target reason named px = record {
    after = λ s h. step s h (can_transition_to x target) refl;
  }
    where
      step :
          (s : Service)
          → Holds P base s
          → (b : Bool) → can_transition_to x target ≡ b
          → Holds P base (transition x target reason s).1
      step s h false e = rw (e, transition) h
      step s h true e =
          rw (e, transition)
            (put-Holds sid (moved_session x target reason s.drawn) s _ h (omega arith) named
              (rules.moves sid x target reason s.drawn named px e)
              (λ j. simp lookup-insert (ground arith)))

  Keeps-record_event :
      (sid : ℕ) (x : RealtimeSession) (kind : EventKind) (payload : EventPayload)
      → x.session_id ≡ sid
      → P sid x
      → (is_lifecycle kind && strict) ≡ false
      → Keeps P base (record_event x kind payload)
  unfolding record_event draw save on_event append_event next_sequence
  Keeps-record_event sid x kind payload named px plain = record {
    after = λ s h.
        put-Holds sid (append_event x s.drawn kind payload).1 s _ h (omega arith) named
          (rules.logs sid x s.drawn kind payload named px plain)
          (λ j. simp lookup-insert (ground arith));
  }

  Keeps-ingest_event :
      (sid : ℕ) (kind : EventKind) (payload : EventPayload)
      → (is_lifecycle kind && strict) ≡ false
      → Keeps P base (ingest_event sid kind payload)
  unfolding ingest_event
  Keeps-ingest_event sid kind payload plain = Keeps-get_session sid _ λ x named px.
      Keeps-if (requires_active kind && not (is_active x.state)) _ _ (Keeps-throw _)
        (Keeps-record_event sid x kind payload named px plain)

  Keeps-create_session :
      (config : RealtimeConfig) (metadata : Metadata)
      → Keeps P base (create_session config metadata)
  unfolding create_session draw save
  Keeps-create_session config metadata = record {
    after = λ s h.
        put-Holds s.drawn (new_session s.drawn config metadata) s _ h (omega arith) refl
          (rules.fresh s.drawn config metadata h.drawn_from)
          (λ j. simp lookup-insert (ground arith));
  }

  -- `_get_session` and one transition: five of the methods.
  Keeps-move :
      (sid : ℕ) (target : SessionState) (reason : String)
      → Keeps P base (get_session sid >>= λ x. transition x target reason)
  Keeps-move sid target reason =
      Keeps-get_session sid _ λ x named px. Keeps-transition sid x target reason named px

  Keeps-interrupt :
      (sid : ℕ) (reason : String) (hard : Bool) → Keeps P base (interrupt sid reason hard)
  unfolding interrupt
  Keeps-interrupt sid reason hard = Keeps-get_session sid _ λ x named px.
      Keeps-bind _ _ (Keeps-transition sid x _ _ named px)
        λ _. Keeps-ingest_event sid interrupt_kind _ refl

  Keeps-begin_tool_call :
      (executor : Bool) (sid : ℕ) (call : ToolCallEvent)
      → Keeps P base (begin_tool_call executor sid call)
  unfolding begin_tool_call
  Keeps-begin_tool_call false sid call = Keeps-throw _
  Keeps-begin_tool_call true sid call = Keeps-get_session sid _ λ x named px.
      Keeps-bind _ _ (Keeps-transition sid x _ _ named px)
        λ _. Keeps-ingest_event sid tool_call _ refl

  Keeps-end_tool_call :
      (sid : ℕ) (call : ToolCallEvent) (outcome : ToolOutcome)
      → Keeps P base (end_tool_call sid call outcome)
  unfolding end_tool_call
  Keeps-end_tool_call sid call (raised detail) = Keeps-bind _ _ (Keeps-on_error _ _) λ _.
      Keeps-get_session sid _
        λ x named px. Keeps-bind _ _ (Keeps-transition sid x _ _ named px) λ _. Keeps-throw _
  Keeps-end_tool_call sid call (returned result) =
      Keeps-bind _ _ (Keeps-ingest_event sid tool_result _ refl) λ _.
        Keeps-get_session sid _
          λ x named px. Keeps-bind _ _ (Keeps-transition sid x _ _ named px) λ _. Keeps-pure _

  perform-Holds :
      (op : Op) (s : Service) → Plain strict op → Holds P base s → Holds P base (perform op s)
  unfolding perform start_session close_session complete_session fail_session resume emit_output
      emit_backpressure
  perform-Holds (create config metadata) s p h = (Keeps-create_session config metadata).after s h
  perform-Holds (start sid) s p h = (Keeps-move sid _ _).after s h
  perform-Holds (close sid) s p h = (Keeps-move sid _ _).after s h
  perform-Holds (complete sid) s p h = (Keeps-move sid _ _).after s h
  perform-Holds (resumption sid) s p h = (Keeps-move sid _ _).after s h
  perform-Holds (failure sid reason) s p h = (Keeps-move sid _ _).after s h
  perform-Holds (ingest sid kind payload) s p h = (Keeps-ingest_event sid kind payload p).after s h
  perform-Holds (output sid chunk) s p h =
      (Keeps-ingest_event sid _ (output_chunk chunk) (plain_output strict chunk)).after s h
  perform-Holds (interruption sid reason hard) s p h = (Keeps-interrupt sid reason hard).after s h
  perform-Holds (tool_begins executor sid call) s p h =
      (Keeps-begin_tool_call executor sid call).after s h
  perform-Holds (tool_ends sid call outcome) s p h =
      (Keeps-end_tool_call sid call outcome).after s h
  perform-Holds (slow_down sid directive) s p h =
      (Keeps-ingest_event sid backpressure _ refl).after s h

  pub run-Holds :
      (ops : List Op) (s : Service)
      → All (Plain strict) ops
      → Holds P base s
      → Holds P base (run s ops)
  unfolding run
  run-Holds [] s p h = h
  run-Holds (op ∷ ops) s p h = run-Holds ops (perform op s) p.1 (perform-Holds op s p.0 h)
