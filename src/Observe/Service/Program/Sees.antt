-- ===== src/Observe/Service/Program/Sees.antt =====
-- A tracer of src/electripy/observability/observe/ against the scope that it is in.
use electripy_ai.Prelude.{
  ℕ, ◌≤◌, ◌<◌, ◌≡◌, ◌≢◌, refl, sym, ap, ◌∙◌, subst, false, Option, none, some, List, length, arith,
}
use electripy_ai.Observe.Tracer.{
  InMemorySpan, set_attribute, set_attributes, add_event, record_exception, set_status, Tracing,
  span_at, update_at,
}
use electripy_ai.Observe.Tracer.Places.{span_at-update_at, span_at-elsewhere, length-update_at}
use electripy_ai.Observe.Service.{
  record_policy_decision, note_exception, annotate_span, record_llm_response, record_tool_result,
  target_of, on_span,
}
use electripy_ai.Observe.Service.Program.{
  Action, annotate, decided, excepted, responded, tool_ended, attribute, status, act,
}
use electripy_ai.Observe.Service.Program.Scopes.{Scope, change_of, changed}

-- The current span is the enclosing one, and has not ended.
abbrev pub Here : Option ℕ → List InMemorySpan → Option InMemorySpan → Type 0
Here none spans enclosing = enclosing ≡ none
Here (some i) spans enclosing =
    (s : InMemorySpan) × (span_at i spans ≡ some s) × (enclosing ≡ some s) × (s.ended ≡ false)

pub record Sees (t : Tracing) (sc : Scope) : Type 0 where
  pub finished : t.finished_spans ≡ sc.finished
  pub draws : t.draws ≡ sc.draws
  pub readings : t.readings ≡ sc.readings
  pub here : Here t.current t.spans sc.enclosing

-- Only the current span and new ones change, and the current one is current again.
pub record Stays (t t' : Tracing) : Type 0 where
  pub current : t'.current ≡ t.current
  pub longer : length t.spans ≤ length t'.spans
  pub others :
      (j : ℕ) → t.current ≢ some j → j < length t.spans → span_at j t'.spans ≡ span_at j t.spans

pub Stays-refl : (t : Tracing) → Stays t t
Stays-refl t = record { current = refl; longer = omega arith; others = λ j _ _. refl }

pub Stays-trans : (t t' t'' : Tracing) → Stays t t' → Stays t' t'' → Stays t t''
Stays-trans t t' t'' r s = record {
  current = s.current ∙ r.current;
  longer = omega (arith, r.longer, s.longer);
  others = λ j ne lt.
      s.others j (λ e. ne (sym r.current ∙ e)) (omega (arith, lt, r.longer)) ∙ r.others j ne lt;
}

pub act-on_span : (a : Action) (t : Tracing) → act a t ≡ on_span t.current (change_of a) t
unfolding act annotate_span record_policy_decision note_exception record_llm_response
    record_tool_result target_of
act-on_span (annotate attributes) t = refl
act-on_span (decided meta) t = refl
act-on_span (excepted e attributes) t = refl
act-on_span (responded meta) t = refl
act-on_span (tool_ended meta) t = refl
act-on_span (attribute key value) t = refl
act-on_span (status s) t = refl

pub change-ended : (a : Action) (s : InMemorySpan) → (change_of a s).ended ≡ s.ended
unfolding set_attributes add_event record_exception set_attribute set_status
change-ended (annotate attributes) s = refl
change-ended (decided meta) s = refl
change-ended (excepted e attributes) s = refl
change-ended (responded meta) s = refl
change-ended (tool_ended meta) s = refl
change-ended (attribute key value) s = refl
change-ended (status s') s = refl

-- A change of the current span.
pub on_span-Sees :
    (f : InMemorySpan → InMemorySpan) (t : Tracing) (sc : Scope) (c : Option ℕ)
    → ((s : InMemorySpan) → (f s).ended ≡ s.ended)
    → t.current ≡ c
    → Sees t sc
    → Sees (on_span c f t) (record sc { enclosing = changed f sc.enclosing })
      × Stays t (on_span c f t)
unfolding on_span
on_span-Sees f t sc none keeps e sees =
    let h : sc.enclosing ≡ none = subst (λ c. Here c t.spans sc.enclosing) e sees.here in
    (
      record {
        finished = sees.finished;
        draws = sees.draws;
        readings = sees.readings;
        here = subst (λ c. Here c t.spans (changed f sc.enclosing)) (sym e) (ap (changed f) h);
      },
      Stays-refl t,
    )
on_span-Sees f t sc (some i) keeps e sees =
    let (s, at, enc, live) = subst (λ c. Here c t.spans sc.enclosing) e sees.here in
    (
      record {
        finished = sees.finished;
        draws = sees.draws;
        readings = sees.readings;
        here =
            subst (λ c. Here c (update_at i f t.spans) (changed f sc.enclosing)) (sym e)
              (f s, span_at-update_at i f t.spans s at, ap (changed f) enc, keeps s ∙ live);
      },
      record {
        current = refl;
        longer = omega (arith, length-update_at i f t.spans);
        others = λ j ne lt. span_at-elsewhere i j f t.spans (λ same. ne (e ∙ ap some same));
      },
    )
