-- ===== src/Observe/Service/Program/Scopes.antt =====
-- Programs by their lexical scopes, what the spans of src/electripy/observability/observe/ are to be.
use electripy_ai.Prelude.{ℕ, ◌+◌, Bool, true, false, Option, none, some, List, [], ◌∷◌, ◌++◌}
use electripy_ai.Observe.Domain.{Attributes, TraceContext}
use electripy_ai.Observe.Metadata.{response_attributes, tool_attributes, policy_attributes}
use electripy_ai.Observe.Tracer.{
  Raised, SpanRecord, InMemorySpan, set_attribute, set_attributes, add_event, record_exception,
  set_status, finished_record, SpanStart, parent_or_root, new_span,
}
use electripy_ai.Observe.Service.Program.{
  Action, annotate, decided, excepted, responded, tool_ended, attribute, status, Program, done,
  raises, acts, within, followed_by, trying,
}

-- What a scope sees: the span that it is in, if any, what is finished, and the numbers to come.
pub record Scope : Type 0 where
  pub enclosing : Option InMemorySpan
  pub finished : List SpanRecord
  pub draws : ℕ
  pub readings : ℕ

abbrev pub change_of : Action → InMemorySpan → InMemorySpan
change_of (annotate attributes) s = set_attributes attributes s
change_of (decided meta) s = add_event "policy.decision" (some (policy_attributes meta)) s
change_of (excepted e attributes) s = record_exception e attributes s
change_of (responded meta) s = set_attributes (response_attributes meta) s
change_of (tool_ended meta) s = set_attributes (tool_attributes meta) s
change_of (attribute key value) s = set_attribute key value s
change_of (status s') s = set_status s' s

abbrev pub changed : (InMemorySpan → InMemorySpan) → Option InMemorySpan → Option InMemorySpan
changed f none = none
changed f (some s) = some (f s)

abbrev pub context_of : Option InMemorySpan → Option TraceContext
context_of none = none
context_of (some s) = some s.context

-- The span that a block opens, in a scope, and the scope of the block.
abbrev pub opened : SpanStart → Scope → Scope
opened start sc =
    let (c, draws) = parent_or_root (context_of sc.enclosing) sc.draws in
    record {
      enclosing = some (new_span start c draws sc.readings);
      finished = sc.finished;
      draws = draws + 1;
      readings = sc.readings + 1;
    }

abbrev pub with_exception : Option Raised → InMemorySpan → InMemorySpan
with_exception none s = s
with_exception (some e) s = record_exception e none s

-- The scope after a block, which finishes the block's span and no other.
abbrev pub closed_by :
    (Attributes → Attributes)
    → Option InMemorySpan
    → Option Raised
    → Option InMemorySpan
    → Scope
    → Scope
closed_by clean outer raised none inner = record inner { enclosing = outer }
closed_by clean outer raised (some s) inner =
    let last = with_exception raised s in
    record inner {
      enclosing = outer;
      finished = inner.finished ++ finished_record last (clean last.attributes) inner.readings ∷ [];
      readings = inner.readings + 1;
    }

abbrev pub reraised : Bool → Raised → Option Raised → Option Raised
reraised reraise e (some f) = some f
reraised true e none = some e
reraised false e none = none

-- A program by its blocks: without a variable for the current span, and without spans that are found by
-- their place.
abbrev pub scoped : (Attributes → Attributes) → Program → Scope → Option Raised × Scope
scoped clean done sc = (none, sc)
scoped clean (raises e) sc = (some e, sc)
scoped clean (acts a) sc = (none, record sc { enclosing = changed (change_of a) sc.enclosing })
scoped clean (within start body) sc =
    let (raised, inner) = scoped clean body (opened start sc) in
    (raised, closed_by clean sc.enclosing raised inner.enclosing inner)
scoped clean (followed_by p q) sc =
    let (raised, sc1) = scoped clean p sc in
    elim raised [ some e ↦ (some e, sc1) | none ↦ scoped clean q sc1 ]
scoped clean (trying body handler reraise) sc =
    let (raised, sc1) = scoped clean body sc in
    elim raised [
      | none ↦ (none, sc1)
      | some e ↦ let (again, sc2) = scoped clean (handler e) sc1 in (reraised reraise e again, sc2)
    ]
