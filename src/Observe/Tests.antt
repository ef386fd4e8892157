-- ===== src/Observe/Tests.antt =====
-- Small programs over the tracer of src/electripy/observability/observe/.
use electripy_ai.Prelude.{
  ℕ, ◌≡◌, refl, String, false, Option, none, some, List, [], ◌∷◌, ◌⊎◌, inr, All, Paired, arith, map,
}
use electripy_ai.Prelude.Names.{put, get}
use electripy_ai.Observe.Domain.{
  AttributeValue, RedactionRule, str, int, Attributes, internal, root_context, child, merge,
  enterprise_default, exact_rule,
}
use electripy_ai.Observe.Redaction.{
  or_text, replaced, rule_matches, first_match, redact_into, redact,
}
use electripy_ai.Observe.Redaction.Redacted.{Compiles}
use electripy_ai.Observe.Tracer.{
  Raised, SpanRecord, set_attribute, set_attributes, exception_attributes, record_exception,
  set_status, finished_record, span_at, update_at, SpanStart, parent_or_root, new_span, start_span,
  final_attributes, appended, end_found, end_span,
}
use electripy_ai.Observe.Service.{
  note_exception, annotate_span, target_of, on_span, context_at, enter, exception_noted, left_with,
  exit,
}
use electripy_ai.Observe.Service.Program.{
  annotate, attribute, excepted, act, Program, done, raises, acts, within, followed_by, trying,
  handled, run, observe_function, name_or,
}
use electripy_ai.Observe.Service.Program.Scopes.{scoped}
use electripy_ai.Observe.Service.Program.Scoping.{new_tracing, outermost, run_refines_scopes}
use electripy_ai.Observe.Service.Program.Redacted.{IsRedactedSpan, finished_spans-IsRedacted}

program : Unit {0}
unfolding run enter start_span parent_or_root new_span set_attributes merge put exit end_span
    end_found span_at update_at appended exception_noted left_with on_span context_at act
    annotate_span target_of record_exception exception_attributes set_attribute finished_record
    child root_context handled final_attributes redact redact_into first_match rule_matches replaced
    or_text enterprise_default exact_rule set_status note_exception observe_function name_or
program = tt

abbrev boom : Raised
boom = record { type_name = "ValueError"; message = "boom" }

abbrev span : String → SpanStart
span name = record { name = name; kind = internal; attributes = ("prompt", str "hello") ∷ [] }

-- An inner block that raises, and an outer one that handles it.
abbrev nested : Program
nested = within (span "outer") (
    followed_by
      (trying (within (span "inner") (followed_by (acts (attribute "n" (int 3))) (raises boom)))
        (λ e. acts (annotate (("caught", str e.type_name) ∷ []))) false)
      (within (span "last") done))

abbrev bare : Attributes → String ⊎ Attributes
bare attributes = inr attributes

abbrev quote : String → String
quote s = s

-- The identifiers are the draws: 0 and 1 for the trace and the made-up parent, then the spans.
summary : SpanRecord → String × Option ℕ × Option ℕ
summary r = (r.name, r.context.parent_span_id, r.context.span_id)

-- The outermost span has a parent, 1, that is no span.
finished_run :
    map summary (run quote bare nested new_tracing).1.finished_spans
    ≡ ("inner", some 2, some 3) ∷ ("last", some 2, some 4) ∷ ("outer", some 1, some 2) ∷ []
unfolding program summary
finished_run = refl

run_refines_scopes_example :
    ((run quote bare nested new_tracing).0 ≡ (scoped (λ a. a) nested outermost).0)
    × ((run quote bare nested new_tracing).1.finished_spans
        ≡ (scoped (λ a. a) nested outermost).1.finished)
    × ((run quote bare nested new_tracing).1.current ≡ none)
run_refines_scopes_example = run_refines_scopes quote bare (λ a. a) (λ a. refl) nested

-- A redactor by exact keys.
abbrev masked : Attributes → String ⊎ Attributes
masked = final_attributes quote (λ pattern key. some false) (some enterprise_default)

first_prompt : List SpanRecord → Option AttributeValue
first_prompt [] = none
first_prompt (r ∷ rs) = get "prompt" r.attributes

-- Attributes of a span are redacted.
redacted_run :
    first_prompt (run quote masked nested new_tracing).1.finished_spans ≡ some (str "[REDACTED]")
unfolding program first_prompt get
redacted_run = refl

abbrev leaking : Program
leaking = within (span "outer") (acts (excepted boom (some (("prompt", str "hello") ∷ []))))

first_events : List SpanRecord → List (String × Option Attributes)
first_events [] = []
first_events (r ∷ rs) = r.events

-- Those of its events are not.
events_run :
    first_events (run quote masked leaking new_tracing).1.finished_spans
    ≡ (
      "exception",
      some (
          ("exception.type", str "ValueError")
          ∷ ("exception.message", str "boom")
          ∷ ("prompt", str "hello")
          ∷ []),
    )
      ∷ []
unfolding program first_events
events_run = refl

compile_all : (rules : List RedactionRule) → All (Compiles quote (λ pattern key. some false)) rules
compile_all [] = tt
compile_all (rule ∷ rules) = (λ is_pattern key e. ground (arith, e), compile_all rules)

finished_spans-IsRedacted_example :
    Paired
      (IsRedactedSpan quote (λ pattern key. some false) enterprise_default)
      (run quote bare nested new_tracing).1.finished_spans
      (run quote masked nested new_tracing).1.finished_spans
unfolding enterprise_default final_attributes
finished_spans-IsRedacted_example =
    finished_spans-IsRedacted quote quote (λ pattern key. some false) enterprise_default nested refl
      (compile_all enterprise_default.rules)
