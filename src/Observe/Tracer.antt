-- ===== src/Observe/Tracer.antt =====
-- `InMemorySpan` and `InMemoryTracer` of src/electripy/observability/observe/adapters.py. A span is named
-- by its place among the spans that the tracer made; `final` is what the tracer's redactor makes of the
-- attributes, on the left the pattern of its error. A reading of the clock is its number.
pub mod Places
use Prim.Native.String.{◌++◌ as str_append}
use electripy_ai.Prelude.{
  ℕ, zero, suc, ◌+◌, String, Bool, true, false, Option, none, some, List, [], ◌∷◌, ◌++◌, ◌⊎◌, inl,
  inr, length, if◌then◌else◌,
}
use electripy_ai.Prelude.Names.{put}
use electripy_ai.Observe.Domain.{
  str, Attributes, SpanKind, unset, error, SpanStatus, TraceContext, root_context, child, merge,
  AttributeValue, RedactionPolicy,
}
use electripy_ai.Observe.Redaction.{redact}

-- An exception's class name and text.
pub record Raised : Type 0 where
  pub type_name : String
  pub message : String

pub record SpanRecord : Type 0 where
  pub name : String
  pub kind : SpanKind
  pub context : TraceContext
  pub parent_context : Option TraceContext
  pub attributes : Attributes
  pub events : List (String × Option Attributes)
  pub exceptions : List Raised
  pub status : SpanStatus
  pub start_time : ℕ
  pub end_time : ℕ

pub record InMemorySpan : Type 0 where
  pub name : String
  pub kind : SpanKind
  pub context : TraceContext
  pub parent_context : Option TraceContext
  pub attributes : Attributes
  pub events : List (String × Option Attributes)
  pub exceptions : List Raised
  pub status : SpanStatus
  pub start_time : ℕ
  pub ended : Bool

unfoldable pub set_attribute : String → AttributeValue → InMemorySpan → InMemorySpan
set_attribute key value s = record s { attributes = put key value s.attributes }

unfoldable pub set_attributes : Attributes → InMemorySpan → InMemorySpan
set_attributes attributes s = record s { attributes = merge s.attributes attributes }

-- `dict(attributes) if attributes else None`.
unfoldable pub some_attributes : Option Attributes → Option Attributes
some_attributes none = none
some_attributes (some []) = none
some_attributes (some (a ∷ rest)) = some (a ∷ rest)

unfoldable pub add_event : String → Option Attributes → InMemorySpan → InMemorySpan
add_event name attributes s = record s {
  events = s.events ++ (name, some_attributes attributes) ∷ [];
}

unfoldable pub exception_attributes : Raised → Option Attributes → Attributes
exception_attributes e none =
    ("exception.type", str e.type_name) ∷ ("exception.message", str e.message) ∷ []
exception_attributes e (some more) =
    merge (("exception.type", str e.type_name) ∷ ("exception.message", str e.message) ∷ []) more

unfoldable pub record_exception : Raised → Option Attributes → InMemorySpan → InMemorySpan
record_exception e attributes s = record s {
  exceptions = s.exceptions ++ e ∷ [];
  events = s.events ++ ("exception", some (exception_attributes e attributes)) ∷ [];
  status = record { code = error; description = some e.message };
}

unfoldable pub set_status : SpanStatus → InMemorySpan → InMemorySpan
set_status status s = record s { status = status }

unfoldable pub finished_record : InMemorySpan → Attributes → ℕ → SpanRecord
finished_record s final_attrs now = record {
  name = s.name;
  kind = s.kind;
  context = s.context;
  parent_context = s.parent_context;
  attributes = final_attrs;
  events = s.events;
  exceptions = s.exceptions;
  status = s.status;
  start_time = s.start_time;
  end_time = now;
}

-- The tracer, with its spans, the numbers of the draws and of the readings to come, and the variable
-- `_current_span` of src/electripy/observability/observe/services.py.
pub record Tracing : Type 0 where
  pub spans : List InMemorySpan
  pub finished_spans : List SpanRecord
  pub draws : ℕ
  pub readings : ℕ
  pub current : Option ℕ

unfoldable pub span_at : ℕ → List InMemorySpan → Option InMemorySpan
span_at i [] = none
span_at zero (s ∷ ss) = some s
span_at (suc i) (s ∷ ss) = span_at i ss

unfoldable pub update_at : ℕ → (InMemorySpan → InMemorySpan) → List InMemorySpan → List InMemorySpan
update_at i change [] = []
update_at zero change (s ∷ ss) = change s ∷ ss
update_at (suc i) change (s ∷ ss) = s ∷ update_at i change ss

-- What `_SpanContextManager` is made of.
pub record SpanStart : Type 0 where
  pub name : String
  pub kind : SpanKind
  pub attributes : Attributes

-- `parent or TraceContext(...)`, and the draws afterwards.
unfoldable pub parent_or_root : Option TraceContext → ℕ → TraceContext × ℕ
parent_or_root none draws = (root_context draws (draws + 1), draws + 2)
parent_or_root (some c) draws = (c, draws)

unfoldable pub new_span : SpanStart → TraceContext → ℕ → ℕ → InMemorySpan
new_span start parent span_id now = set_attributes start.attributes (record {
  name = start.name;
  kind = start.kind;
  context = child parent span_id;
  parent_context = some parent;
  attributes = [];
  events = [];
  exceptions = [];
  status = record { code = unset; description = none };
  start_time = now;
  ended = false;
})

unfoldable pub start_span : SpanStart → Option TraceContext → Tracing → ℕ × Tracing
start_span start parent t =
    let (c, draws) = parent_or_root parent t.draws in
    (
      length t.spans,
      record t {
        spans = t.spans ++ new_span start c draws t.readings ∷ [];
        draws = draws + 1;
        readings = t.readings + 1;
      },
    )

-- Without a redactor the attributes stay as they are.
unfoldable pub final_attributes :
    (String → String)
    → (String → String → Option Bool)
    → Option RedactionPolicy
    → Attributes
    → String ⊎ Attributes
final_attributes lower search none attributes = inr attributes
final_attributes lower search (some policy) attributes = redact lower search policy attributes

unfoldable pub redaction_error : (String → String) → String → Raised
redaction_error quote bad = record {
  type_name = "RedactionError";
  message = str_append "Invalid redaction regex pattern: " (quote bad);
}

module _ (quote : String → String) (final : Attributes → String ⊎ Attributes) where
  -- `end`, of a span that has not ended, after the redactor; `_ended` is set first.
  unfoldable pub appended :
      ℕ → InMemorySpan → Tracing → String ⊎ Attributes → Option Raised × Tracing
  appended i s t (inl bad) = (
    some (redaction_error quote bad),
    record t { spans = update_at i (λ s. record s { ended = true }) t.spans },
  )
  appended i s t (inr final_attrs) = (
    none,
    record t {
      spans = update_at i (λ s. record s { ended = true }) t.spans;
      finished_spans = t.finished_spans ++ finished_record s final_attrs t.readings ∷ [];
      readings = t.readings + 1;
    },
  )

  unfoldable pub end_found : ℕ → Option InMemorySpan → Tracing → Option Raised × Tracing
  end_found i none t = (none, t)
  end_found i (some s) t = if s.ended then (none, t) else appended i s t (final s.attributes)

  unfoldable pub end_span : ℕ → Tracing → Option Raised × Tracing
  end_span i t = end_found i (span_at i t.spans) t
