-- ===== src/Observe/Service/Program/Scoping.antt =====
-- The context variable and the tracer of src/electripy/observability/observe/ against lexical scopes.
use electripy_ai.Prelude.{
  ℕ, ◌+◌, ◌≤◌, ◌<◌, ◌≡◌, ◌≢◌, refl, sym, ap, ◌∙◌, subst, String, Bool, true, false, Option, none,
  some, List, [], length, length-snoc, arith, some-injective, ◌⊎◌, inr,
}
use electripy_ai.Observe.Domain.{Attributes}
use electripy_ai.Observe.Tracer.{
  Raised, InMemorySpan, set_attributes, Tracing, span_at, SpanStart, parent_or_root, new_span,
  start_span,
}
use electripy_ai.Observe.Tracer.Places.{span_at-append, span_at-last, span_at-length}
use electripy_ai.Observe.Service.{context_at, enter, exit}
use electripy_ai.Observe.Service.Program.{
  Program, done, raises, acts, within, followed_by, trying, handled, run,
}
use electripy_ai.Observe.Service.Program.Scopes.{
  Scope, change_of, changed, context_of, opened, closed_by, reraised, scoped,
}
use electripy_ai.Observe.Service.Program.Sees.{
  Here, Sees, Stays, Stays-refl, Stays-trans, act-on_span, change-ended, on_span-Sees,
}
use electripy_ai.Observe.Service.Program.Leaving.{Left, exit-Left}

module _ (quote : String → String) (final : Attributes → String ⊎ Attributes)
    (clean : Attributes → Attributes)
    (total : (attributes : Attributes) → final attributes ≡ inr (clean attributes)) where
  context-Here :
      (c : Option ℕ) (t : Tracing) (enclosing : Option InMemorySpan)
      → Here c t.spans enclosing
      → context_at c t ≡ context_of enclosing
  unfolding context_at
  context-Here none t enclosing h = sym (ap context_of h)
  context-Here (some i) t enclosing (s, at, enc, live) = ap context_of at ∙ sym (ap context_of enc)

  enter-Sees :
      (start : SpanStart) (t : Tracing) (sc : Scope)
      → Sees t sc
      → Sees (enter start t).2 (opened start sc)
  unfolding enter start_span new_span set_attributes
  enter-Sees start t sc sees =
      let parent : parent_or_root (context_at t.current t) t.draws
          ≡ parent_or_root (context_of sc.enclosing) sc.draws =
        λ k. parent_or_root (context-Here t.current t sc.enclosing sees.here k) (sees.draws k) in
      let (c, draws) = parent_or_root (context_at t.current t) t.draws in
      let s = new_span start c draws t.readings in
      record {
        finished = sees.finished;
        draws = λ k. (parent k).1 + 1;
        readings = ap (λ n. n + 1) sees.readings;
        here = (
          s,
          span_at-last t.spans s,
          sym (λ k. some (new_span start (parent k).0 (parent k).1 (sees.readings k))),
          refl,
        );
      }

  -- The outcome and the scope of the one are those of the other.
  Joined : Tracing → Option Raised × Tracing → Option Raised × Scope → Type 0
  Joined t ran meant = (ran.0 ≡ meant.0) × Sees ran.1 meant.1 × Stays t ran.1

  closed_by-enclosing :
      (outer : Option InMemorySpan) (raised : Option Raised) (found : Option InMemorySpan)
      (inner : Scope)
      → (closed_by clean outer raised found inner).enclosing ≡ outer
  closed_by-enclosing outer raised none inner = refl
  closed_by-enclosing outer raised (some s) inner = refl

  Here-older :
      (c : Option ℕ) (spans spans' : List InMemorySpan) (enclosing enclosing' : Option InMemorySpan)
      → ((j : ℕ) → j < length spans → span_at j spans' ≡ span_at j spans)
      → enclosing' ≡ enclosing
      → Here c spans enclosing
      → Here c spans' enclosing'
  Here-older none spans spans' enclosing enclosing' older e h = e ∙ h
  Here-older (some i) spans spans' enclosing enclosing' older e (s, at, enc, live) =
      (s, older i (span_at-length i spans s at) ∙ at, e ∙ enc, live)

  -- What leaving a block comes to for the scope around it.
  Left-Joined :
      (i : ℕ) (t t2 : Tracing) (raised : Option Raised) (sc sc2 : Scope)
      (result : Option Raised × Tracing)
      → Sees t sc
      → length t.spans ≤ length t2.spans
      → ((j : ℕ) → j < length t.spans → (i ≢ j) × (span_at j t2.spans ≡ span_at j t.spans))
      → Left quote final clean total i t.current raised t2
          (closed_by clean sc.enclosing raised sc2.enclosing sc2)
          result
      → Joined t result (raised, closed_by clean sc.enclosing raised sc2.enclosing sc2)
  unfolding Joined
  Left-Joined i t t2 raised sc sc2 result sees long kept left =
      let older : (j : ℕ) → j < length t.spans → span_at j result.1.spans ≡ span_at j t.spans =
        λ j lt. left.others j (kept j lt).0 ∙ (kept j lt).1 in
      let after = closed_by clean sc.enclosing raised sc2.enclosing sc2 in
      (
        left.same_raised,
        record {
          finished = left.finished;
          draws = left.draws;
          readings = left.readings;
          here =
              subst (λ c. Here c result.1.spans after.enclosing) (sym left.restored)
                (Here-older t.current t.spans result.1.spans sc.enclosing after.enclosing older
                  (closed_by-enclosing sc.enclosing raised sc2.enclosing sc2) sees.here);
        },
        record {
          current = left.restored;
          longer = omega (arith, long, left.as_long);
          others = λ j ne lt. older j lt;
        },
      )

  within-Joined :
      (start : SpanStart) (body : Program) (t : Tracing) (sc : Scope)
      → Sees t sc
      → ((t1 : Tracing) (sc1 : Scope)
          → Sees t1 sc1
          → Joined t1 (run quote final body t1) (scoped clean body sc1))
      → Joined t (run quote final (within start body) t) (scoped clean (within start body) sc)
  unfolding run Joined enter start_span
  within-Joined start body t sc sees of_body =
      let i = length t.spans in
      let (_, token, t1) = enter start t in
      let (same, inner, stay) = of_body t1 (opened start sc) (enter-Sees start t sc sees) in
      let (raised, t2) = run quote final body t1 in
      let (meant, sc2) = scoped clean body (opened start sc) in
      let left =
        exit-Left quote final clean total i token raised t2 sc2 sc.enclosing stay.current inner in
      let opened_one : length t1.spans ≡ length t.spans + 1 =
        omega (arith, length-snoc t.spans _) in
      let kept : (j : ℕ) → j < length t.spans → (i ≢ j) × (span_at j t2.spans ≡ span_at j t.spans) =
        λ j lt. (
          λ e. omega (arith, e, lt),
          stay.others j (λ e. omega (arith, some-injective i j e, lt))
                (omega (arith, lt, opened_one))
              ∙ span_at-append j t.spans _ lt,
        ) in
      subst
        (λ r.
          Joined t (exit quote final i token raised t2)
            (r, closed_by clean sc.enclosing r sc2.enclosing sc2))
        same
        (Left-Joined i t t2 raised sc sc2 (exit quote final i token raised t2) sees
          (omega (arith, opened_one, stay.longer)) kept left)

  handled-Joined :
      (reraise : Bool) (e : Raised) (t t2 : Tracing) (sc2 : Scope) (again : Option Raised)
      → Sees t2 sc2
      → Stays t t2
      → Joined t (handled reraise e (again, t2)) (reraised reraise e again, sc2)
  unfolding handled Joined
  handled-Joined reraise e t t2 sc2 (some f) sees stay = (refl, sees, stay)
  handled-Joined true e t t2 sc2 none sees stay = (refl, sees, stay)
  handled-Joined false e t t2 sc2 none sees stay = (refl, sees, stay)

  run-Joined :
      (p : Program) (t : Tracing) (sc : Scope)
      → Sees t sc
      → Joined t (run quote final p t) (scoped clean p sc)
  unfolding run Joined
  run-Joined done t sc sees = (refl, sees, Stays-refl t)
  run-Joined (raises e) t sc sees = (refl, sees, Stays-refl t)
  run-Joined (acts a) t sc sees =
      subst
        (λ t'.
          Joined t (none, t') (none, record sc { enclosing = changed (change_of a) sc.enclosing }))
        (sym (act-on_span a t))
        (let (sees', stay) = on_span-Sees (change_of a) t sc t.current (change-ended a) refl sees in
          (refl, sees', stay))
  run-Joined (within start body) t sc sees =
      within-Joined start body t sc sees (λ t1 sc1. run-Joined body t1 sc1)
  run-Joined (followed_by p q) t sc sees =
      let (same, sees1, stay1) = run-Joined p t sc sees in
      let t1 = (run quote final p t).1 in
      let sc1 = (scoped clean p sc).1 in
      let (same2, sees2, stay2) = run-Joined q t1 sc1 sees1 in
      let either : (r : Option Raised)
          → Joined t (elim r [ some e ↦ (some e, t1) | none ↦ run quote final q t1 ])
              (elim r [ some e ↦ (some e, sc1) | none ↦ scoped clean q sc1 ]) =
        elim [
          | some e ↦ (refl, sees1, stay1)
          | none ↦ (same2, sees2, Stays-trans t t1 (run quote final q t1).1 stay1 stay2)
        ] in
      subst
        (λ r.
          Joined t
            (elim (run quote final p t).0 [ some e ↦ (some e, t1) | none ↦ run quote final q t1 ])
            (elim r [ some e ↦ (some e, sc1) | none ↦ scoped clean q sc1 ]))
        same (either (run quote final p t).0)
  run-Joined (trying body handler reraise) t sc sees =
      let (same, sees1, stay1) = run-Joined body t sc sees in
      let t1 = (run quote final body t).1 in
      let sc1 = (scoped clean body sc).1 in
      let either : (r : Option Raised)
          → Joined t
              (elim r [
                | none ↦ (none, t1)
                | some e ↦ handled reraise e (run quote final (handler e) t1)
              ])
              (elim r [
                | none ↦ (none, sc1)
                | some e ↦ (
                  reraised reraise e (scoped clean (handler e) sc1).0,
                  (scoped clean (handler e) sc1).1,
                )
              ]) =
        elim [
          | none ↦ (refl, sees1, stay1)
          | some e ↦
              let (same2, sees2, stay2) = run-Joined (handler e) t1 sc1 sees1 in
              let (again, t2) = run quote final (handler e) t1 in
              subst
                (λ r.
                  Joined t (handled reraise e (again, t2))
                    (reraised reraise e r, (scoped clean (handler e) sc1).1))
                same2
                (handled-Joined reraise e t t2 (scoped clean (handler e) sc1).1 again sees2
                  (Stays-trans t t1 t2 stay1 stay2))
        ] in
      subst
        (λ r.
          Joined t
            (elim (run quote final body t).0 [
              | none ↦ (none, t1)
              | some e ↦ handled reraise e (run quote final (handler e) t1)
            ])
            (elim r [
              | none ↦ (none, sc1)
              | some e ↦ (
                reraised reraise e (scoped clean (handler e) sc1).0,
                (scoped clean (handler e) sc1).1,
              )
            ]))
        same (either (run quote final body t).0)

-- A tracer before any span.
abbrev pub new_tracing : Tracing
new_tracing = record { spans = []; finished_spans = []; draws = 0; readings = 0; current = none }

abbrev pub outermost : Scope
outermost = record { enclosing = none; finished = []; draws = 0; readings = 0 }

-- With a redactor that does not raise: whatever code does with spans, by blocks, notes, exceptions and
-- handlers, it ends as it does by lexical scopes (`scoped`), the tracer's finished spans are those of the
-- scopes, in their order, and afterwards no span is current.
pub run_refines_scopes :
    (quote : String → String) (final : Attributes → String ⊎ Attributes)
    (clean : Attributes → Attributes)
    → ((attributes : Attributes) → final attributes ≡ inr (clean attributes))
    → (p : Program)
    → ((run quote final p new_tracing).0 ≡ (scoped clean p outermost).0)
      × ((run quote final p new_tracing).1.finished_spans ≡ (scoped clean p outermost).1.finished)
      × ((run quote final p new_tracing).1.current ≡ none)
unfolding Joined
run_refines_scopes quote final clean total p =
    let start : Sees new_tracing outermost = record {
      finished = refl;
      draws = refl;
      readings = refl;
      here = refl;
    } in
    let (same, sees, stay) = run-Joined quote final clean total p new_tracing outermost start in
    (same, sees.finished, stay.current)
