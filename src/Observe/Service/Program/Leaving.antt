-- ===== src/Observe/Service/Program/Leaving.antt =====
-- The end of a block (src/electripy/observability/observe/services.py, `__exit__`).
use electripy_ai.Prelude.{
  ℕ, ◌+◌, ◌≡◌, ◌≢◌, refl, sym, ap, ◌∙◌, subst, String, true, false, Option, none, some, [], ◌∷◌,
  ◌++◌, length, ◌⊎◌, inr, if◌then◌else◌,
}
use electripy_ai.Observe.Domain.{Attributes}
use electripy_ai.Observe.Tracer.{
  Raised, InMemorySpan, record_exception, finished_record, Tracing, span_at, update_at, appended,
  end_found, end_span,
}
use electripy_ai.Observe.Tracer.Places.{span_at-update_at, span_at-elsewhere, length-update_at}
use electripy_ai.Observe.Service.{on_span, exception_noted, left_with, exit}
use electripy_ai.Observe.Service.Program.{excepted}
use electripy_ai.Observe.Service.Program.Scopes.{Scope, closed_by}
use electripy_ai.Observe.Service.Program.Sees.{Here, Sees, change-ended}

module _ (quote : String → String) (final : Attributes → String ⊎ Attributes)
    (clean : Attributes → Attributes)
    (total : (attributes : Attributes) → final attributes ≡ inr (clean attributes)) where
  abbrev ended_at : ℕ → InMemorySpan → Tracing → Tracing
  ended_at i s t = record t {
    spans = update_at i (λ s. record s { ended = true }) t.spans;
    finished_spans = t.finished_spans ++ finished_record s (clean s.attributes) t.readings ∷ [];
    readings = t.readings + 1;
  }

  end_span-live :
      (i : ℕ) (s : InMemorySpan) (t : Tracing)
      → span_at i t.spans ≡ some s
      → s.ended ≡ false
      → end_span quote final i t ≡ (none, ended_at i s t)
  unfolding end_span end_found appended
  end_span-live i s t at live =
      ap (λ found. end_found quote final i found t) at
      ∙ ap (λ b. if b then (none, t) else appended quote final i s t (final s.attributes)) live
      ∙ ap (appended quote final i s t) (total s.attributes)

  -- What leaving a block does.
  pub record Left (i : ℕ) (token : Option ℕ) (raised : Option Raised) (t : Tracing) (after : Scope)
      (result : Option Raised × Tracing) : Type 0 where
    pub same_raised : result.0 ≡ raised
    pub finished : result.1.finished_spans ≡ after.finished
    pub draws : result.1.draws ≡ after.draws
    pub readings : result.1.readings ≡ after.readings
    pub restored : result.1.current ≡ token
    pub as_long : length result.1.spans ≡ length t.spans
    pub others : (j : ℕ) → i ≢ j → span_at j result.1.spans ≡ span_at j t.spans

  end_span-Left :
      (i : ℕ) (token : Option ℕ) (raised : Option Raised) (t t' : Tracing) (inner : Scope)
      (outer : Option InMemorySpan) (s : InMemorySpan)
      → Sees t inner
      → t'.finished_spans ≡ t.finished_spans
      → t'.draws ≡ t.draws
      → t'.readings ≡ t.readings
      → length t'.spans ≡ length t.spans
      → ((j : ℕ) → i ≢ j → span_at j t'.spans ≡ span_at j t.spans)
      → span_at i t'.spans ≡ some s
      → s.ended ≡ false
      → Left i token raised t
          (record inner {
            enclosing = outer;
            finished = inner.finished ++ finished_record s (clean s.attributes) inner.readings ∷ [];
            readings = inner.readings + 1;
          })
          (left_with token raised (end_span quote final i t'))
  unfolding left_with
  end_span-Left i token raised t t' inner outer s sees fin drawn reads long others at live =
      let finished = fin ∙ sees.finished in
      let readings = reads ∙ sees.readings in
      subst
        (λ r.
          Left i token raised t
            (record inner {
              enclosing = outer;
              finished =
                  inner.finished ++ finished_record s (clean s.attributes) inner.readings ∷ [];
              readings = inner.readings + 1;
            })
            (left_with token raised r))
        (sym (end_span-live i s t' at live))
        (record {
          same_raised = refl;
          finished = λ k. finished k ++ finished_record s (clean s.attributes) (readings k) ∷ [];
          draws = drawn ∙ sees.draws;
          readings = ap (λ n. n + 1) readings;
          restored = refl;
          as_long = length-update_at i (λ s. record s { ended = true }) t'.spans ∙ long;
          others = λ j ne.
              span_at-elsewhere i j (λ s. record s { ended = true }) t'.spans ne ∙ others j ne;
        })

  pub exit-Left :
      (i : ℕ) (token : Option ℕ) (raised : Option Raised) (t : Tracing) (inner : Scope)
      (outer : Option InMemorySpan)
      → t.current ≡ some i
      → Sees t inner
      → Left i token raised t
          (closed_by clean outer raised inner.enclosing inner)
          (exit quote final i token raised t)
  unfolding exit exception_noted on_span
  exit-Left i token none t inner outer e sees =
      let (s, at, enc, live) = subst (λ c. Here c t.spans inner.enclosing) e sees.here in
      subst
        (λ found.
          Left i token none t (closed_by clean outer none found inner)
            (exit quote final i token none t))
        (sym enc)
        (end_span-Left i token none t t inner outer s sees refl refl refl refl (λ j ne. refl) at
          live)
  exit-Left i token (some x) t inner outer e sees =
      let (s, at, enc, live) = subst (λ c. Here c t.spans inner.enclosing) e sees.here in
      let note = record_exception x none in
      let t' = record t { spans = update_at i note t.spans } in
      subst
        (λ found.
          Left i token (some x) t (closed_by clean outer (some x) found inner)
            (exit quote final i token (some x) t))
        (sym enc)
        (end_span-Left i token (some x) t t' inner outer (note s) sees refl refl refl
          (length-update_at i note t.spans) (λ j ne. span_at-elsewhere i j note t.spans ne)
          (span_at-update_at i note t.spans s at) (change-ended (excepted x none) s ∙ live))
