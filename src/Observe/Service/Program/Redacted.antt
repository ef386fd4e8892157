-- ===== src/Observe/Service/Program/Redacted.antt =====
-- What the redactor changes in the finished spans of src/electripy/observability/observe/.
use electripy_ai.Prelude.{
  ◌+◌, ◌≡◌, refl, sym, ap, subst, ◌∙◌, String, Bool, true, Option, none, some, List, [], ◌∷◌, ◌++◌,
  inr, All, All-append, Paired, map,
}
use electripy_ai.Prelude.Names.{put, Distinct, put-Distinct}
use electripy_ai.Observe.Domain.{Attributes, merge, RedactionPolicy}
use electripy_ai.Observe.Redaction.{redact}
use electripy_ai.Observe.Redaction.Redacted.{Compiles, IsRedacted, redact-IsRedacted}
use electripy_ai.Observe.Tracer.{
  Raised, SpanRecord, InMemorySpan, set_attribute, set_attributes, add_event, record_exception,
  set_status, finished_record, new_span, final_attributes,
}
use electripy_ai.Observe.Service.Program.{
  Action, annotate, decided, excepted, responded, tool_ended, attribute, status, Program, done,
  raises, acts, within, followed_by, trying, run,
}
use electripy_ai.Observe.Service.Program.Scopes.{
  Scope, change_of, changed, opened, with_exception, closed_by, reraised, scoped,
}
use electripy_ai.Observe.Service.Program.Scoping.{new_tracing, outermost, run_refines_scopes}

abbrev same : Attributes → Attributes
same attributes = attributes

module _ (clean : Attributes → Attributes) where
  abbrev cleaned : SpanRecord → SpanRecord
  cleaned r = record r { attributes = clean r.attributes }

  abbrev lift : Scope → Scope
  lift sc = record sc { finished = map cleaned sc.finished }

  abbrev lifted : Option Raised × Scope → Option Raised × Scope
  lifted (raised, sc) = (raised, lift sc)

  map-snoc :
      (rs : List SpanRecord) (r : SpanRecord)
      → map cleaned rs ++ cleaned r ∷ [] ≡ map cleaned (rs ++ r ∷ [])
  map-snoc [] r = refl
  map-snoc (x ∷ xs) r = ap (λ ys. cleaned x ∷ ys) (map-snoc xs r)

  closed_by-lift :
      (outer : Option InMemorySpan) (raised : Option Raised) (found : Option InMemorySpan)
      (inner : Scope)
      → closed_by clean outer raised found (lift inner)
        ≡ lift (closed_by same outer raised found inner)
  unfolding finished_record
  closed_by-lift outer raised none inner = refl
  closed_by-lift outer raised (some s) inner =
      let last = with_exception raised s in
      ap (λ rs. record inner { enclosing = outer; finished = rs; readings = inner.readings + 1 })
        (map-snoc inner.finished (finished_record last last.attributes inner.readings))

  -- Cleaning the attributes at the end of each span is cleaning those of all spans afterwards.
  scoped-lift : (p : Program) (sc : Scope) → scoped clean p (lift sc) ≡ lifted (scoped same p sc)
  scoped-lift done sc = refl
  scoped-lift (raises e) sc = refl
  scoped-lift (acts a) sc = refl
  scoped-lift (within start body) sc =
      let (raised, inner) = scoped same body (opened start sc) in
      ap (λ x. (x.0, closed_by clean sc.enclosing x.0 x.1.enclosing x.1))
        (scoped-lift body (opened start sc))
      ∙ ap (λ x. (raised, x)) (closed_by-lift sc.enclosing raised inner.enclosing inner)
  scoped-lift (followed_by p q) sc =
      let (r, sc1) = scoped same p sc in
      let either : (raised : Option Raised)
          → elim raised as (λ _. Option Raised × Scope) [
            | some e ↦ (some e, lift sc1)
            | none ↦ scoped clean q (lift sc1)
          ]
            ≡ lifted (elim raised [ some e ↦ (some e, sc1) | none ↦ scoped same q sc1 ]) =
        elim [ some e ↦ refl | none ↦ scoped-lift q sc1 ] in
      ap
        (λ x. elim x.0 as (λ _. Option Raised × Scope) [
          | some e ↦ (some e, x.1)
          | none ↦ scoped clean q x.1
        ])
        (scoped-lift p sc)
      ∙ either r
  scoped-lift (trying body handler reraise) sc =
      let (r, sc1) = scoped same body sc in
      let either : (raised : Option Raised)
          → elim raised as (λ _. Option Raised × Scope) [
            | none ↦ (none, lift sc1)
            | some e ↦
                let (again, sc2) = scoped clean (handler e) (lift sc1) in
                (reraised reraise e again, sc2)
          ]
            ≡ lifted (elim raised [
              | none ↦ (none, sc1)
              | some e ↦
                  let (again, sc2) = scoped same (handler e) sc1 in (reraised reraise e again, sc2)
            ]) =
        elim [
          | none ↦ refl
          | some e ↦ ap (λ x. (reraised reraise e x.0, x.1)) (scoped-lift (handler e) sc1)
        ] in
      ap
        (λ x. elim x.0 as (λ _. Option Raised × Scope) [
          | none ↦ (none, x.1)
          | some e ↦
              let (again, sc2) = scoped clean (handler e) x.1 in (reraised reraise e again, sc2)
        ])
        (scoped-lift body sc)
      ∙ either r

-- No name stands twice in a span's attributes, as in a dict.
merge-Distinct :
    (attributes more : Attributes) → Distinct attributes → Distinct (merge attributes more)
unfolding merge
merge-Distinct attributes [] d = d
merge-Distinct attributes ((key, value) ∷ rest) d =
    merge-Distinct (put key value attributes) rest (put-Distinct key value attributes d)

abbrev NeatSpan : Option InMemorySpan → Type 0
NeatSpan none = Unit
NeatSpan (some s) = Distinct s.attributes

abbrev NeatRecords : List SpanRecord → Type 0
NeatRecords rs = All (λ (r : SpanRecord). Distinct r.attributes) rs

abbrev Neat : Scope → Type 0
Neat sc = NeatSpan sc.enclosing × NeatRecords sc.finished

change-Neat :
    (a : Action) (s : InMemorySpan) → Distinct s.attributes → Distinct (change_of a s).attributes
unfolding set_attributes set_attribute add_event record_exception set_status
change-Neat (annotate attributes) s d = merge-Distinct s.attributes attributes d
change-Neat (decided meta) s d = d
change-Neat (excepted e attributes) s d = d
change-Neat (responded meta) s d = merge-Distinct s.attributes _ d
change-Neat (tool_ended meta) s d = merge-Distinct s.attributes _ d
change-Neat (attribute key value) s d = put-Distinct key value s.attributes d
change-Neat (status s') s d = d

changed-Neat :
    (a : Action) (enclosing : Option InMemorySpan)
    → NeatSpan enclosing
    → NeatSpan (changed (change_of a) enclosing)
changed-Neat a none d = tt
changed-Neat a (some s) d = change-Neat a s d

with_exception-Neat :
    (raised : Option Raised) (s : InMemorySpan)
    → Distinct s.attributes
    → Distinct (with_exception raised s).attributes
unfolding record_exception
with_exception-Neat none s d = d
with_exception-Neat (some e) s d = d

closed_by-Neat :
    (outer : Option InMemorySpan) (raised : Option Raised) (found : Option InMemorySpan)
    (inner : Scope)
    → NeatSpan outer
    → NeatSpan found
    → NeatRecords inner.finished
    → Neat (closed_by same outer raised found inner)
unfolding finished_record
closed_by-Neat outer raised none inner o f rs = (o, rs)
closed_by-Neat outer raised (some s) inner o f rs = (
  o,
  All-append (λ (r : SpanRecord). Distinct r.attributes) inner.finished _ rs
      (with_exception-Neat raised s f, tt),
)

scoped-Neat : (p : Program) (sc : Scope) → Neat sc → Neat (scoped same p sc).1
unfolding new_span set_attributes
scoped-Neat done sc n = n
scoped-Neat (raises e) sc n = n
scoped-Neat (acts a) sc n = (changed-Neat a sc.enclosing n.0, n.1)
scoped-Neat (within start body) sc n =
    let (raised, inner) = scoped same body (opened start sc) in
    let (f, rs) = scoped-Neat body (opened start sc) (merge-Distinct [] start.attributes tt, n.1) in
    closed_by-Neat sc.enclosing raised inner.enclosing inner n.0 f rs
scoped-Neat (followed_by p q) sc n =
    let sc1 = (scoped same p sc).1 in
    let n1 = scoped-Neat p sc n in
    let either : (raised : Option Raised)
        → Neat
            (elim raised as (λ _. Option Raised × Scope) [
              | some e ↦ (some e, sc1)
              | none ↦ scoped same q sc1
            ]).1 =
      elim [ some e ↦ n1 | none ↦ scoped-Neat q sc1 n1 ] in
    either (scoped same p sc).0
scoped-Neat (trying body handler reraise) sc n =
    let sc1 = (scoped same body sc).1 in
    let n1 = scoped-Neat body sc n in
    let either : (raised : Option Raised)
        → Neat
            (elim raised as (λ _. Option Raised × Scope) [
              | none ↦ (none, sc1)
              | some e ↦
                  let (again, sc2) = scoped same (handler e) sc1 in (reraised reraise e again, sc2)
            ]).1 =
      elim [ none ↦ n1 | some e ↦ scoped-Neat (handler e) sc1 n1 ] in
    either (scoped same body sc).0

module _ (lower : String → String) (search : String → String → Option Bool)
    (policy : RedactionPolicy) where
  -- A finished span, and the one that the redactor leaves of it: it differs in the attributes alone, each
  -- of which is redacted in its place.
  abbrev pub IsRedactedSpan : SpanRecord → SpanRecord → Type 0
  IsRedactedSpan before after =
      (after ≡ record before { attributes = after.attributes })
      × Paired (IsRedacted lower search policy) before.attributes after.attributes

  Paired-cleaned :
      (clean : Attributes → Attributes)
      → ((attributes : Attributes)
          → Distinct attributes
          → Paired (IsRedacted lower search policy) attributes (clean attributes))
      → (rs : List SpanRecord) → NeatRecords rs
      → Paired IsRedactedSpan rs (map (cleaned clean) rs)
  Paired-cleaned clean redacts [] n = tt
  Paired-cleaned clean redacts (r ∷ rs) n =
      ((refl, redacts r.attributes n.0), Paired-cleaned clean redacts rs n.1)

-- With an enabled policy whose patterns compile: whatever code does with spans, a tracer with the redactor of
-- this policy finishes the spans that a tracer without one does, in the same order, each the same but for
-- its attributes; and these have the same names in the same order, each with the value that it has without
-- a redactor where no rule of the policy matches this attribute, and else with the replacement that the
-- first rule to match it asks for.
pub finished_spans-IsRedacted :
    (quote lower : String → String) (search : String → String → Option Bool)
    (policy : RedactionPolicy) (p : Program)
    → policy.enabled ≡ true
    → All (Compiles lower search) policy.rules
    → Paired
        (IsRedactedSpan lower search policy)
        (run quote (final_attributes lower search none) p new_tracing).1.finished_spans
        (run quote (final_attributes lower search (some policy)) p new_tracing).1.finished_spans
unfolding final_attributes
finished_spans-IsRedacted quote lower search policy p on compiled =
    let redacted =
      λ (attributes : Attributes). redact-IsRedacted lower search policy compiled attributes on in
    let clean : Attributes → Attributes = λ attributes. (redacted attributes).0 in
    let bare =
      run_refines_scopes quote (λ attributes. inr attributes) same (λ attributes. refl) p in
    let hidden =
      run_refines_scopes quote (λ attributes. redact lower search policy attributes) clean
        (λ attributes. (redacted attributes).1) p in
    let ends = ap (λ x. x.1.finished) (scoped-lift clean p outermost) in
    let pairs =
      Paired-cleaned lower search policy clean (λ attributes. (redacted attributes).2)
        (scoped same p outermost).1.finished (scoped-Neat p outermost (tt, tt)).1 in
    subst
      (λ (both : List SpanRecord × List SpanRecord).
        Paired (IsRedactedSpan lower search policy) both.0 both.1)
      (λ i. (sym bare.1 i, sym (hidden.1 ∙ ends) i)) pairs
