-- ===== src/Observe/Service/Program.antt =====
-- What code does with the spans of src/electripy/observability/observe/: blocks `with start_span(...)`, what
-- it notes on the span that it is in, exceptions, and the functions that decorators.py wraps.
pub mod Scopes
pub mod Sees
pub mod Leaving
pub mod Scoping
pub mod Redacted
use electripy_ai.Prelude.{
  ℕ, String, Bool, true, false, Option, none, some, [], ◌∷◌, ◌⊎◌, if◌then◌else◌,
}
use Prim.Native.String.{◌++◌ as str_append}
use electripy_ai.Prelude.Names.{put}
use electripy_ai.Observe.Domain.{
  AttributeValue, str, float, Attributes, SpanKind, tool, ok, SpanStatus, merge,
}
use electripy_ai.Observe.Metadata.{
  GenAiResponseMetadata, ToolInvocationMetadata, PolicyDecisionMetadata, put_some,
}
use electripy_ai.Observe.Redaction.{or_text}
use electripy_ai.Observe.Tracer.{Raised, set_attribute, set_status, Tracing, SpanStart}
use electripy_ai.Observe.Service.{
  record_policy_decision, note_exception, annotate_span, record_llm_response, record_tool_result,
  on_span, enter, exit,
}

-- What is noted on the current span, by the service or by the span's own methods.
pub data Action : Type 0 where
  annotate : Attributes → Action
  decided : PolicyDecisionMetadata → Action
  excepted : Raised → Option Attributes → Action
  responded : GenAiResponseMetadata → Action
  tool_ended : ToolInvocationMetadata → Action
  attribute : String → AttributeValue → Action
  status : SpanStatus → Action

unfoldable pub act : Action → Tracing → Tracing
act (annotate attributes) t = annotate_span attributes none t
act (decided meta) t = record_policy_decision meta none t
act (excepted e attributes) t = note_exception e none attributes t
act (responded meta) t = record_llm_response meta none t
act (tool_ended meta) t = record_tool_result meta none t
act (attribute key value) t = on_span t.current (set_attribute key value) t
act (status s) t = on_span t.current (set_status s) t

-- `trying body handler reraise` is `try: body` with `except BaseException as e: handler`, which may end
-- in a bare `raise`.
pub data Program : Type 0 where
  done : Program
  raises : Raised → Program
  acts : Action → Program
  within : SpanStart → Program → Program
  followed_by : Program → Program → Program
  trying : Program → (Raised → Program) → Bool → Program

-- How a handler ends that reraises `e` or does not.
unfoldable pub handled : Bool → Raised → Option Raised × Tracing → Option Raised × Tracing
handled reraise e (some f, t) = (some f, t)
handled true e (none, t) = (some e, t)
handled false e (none, t) = (none, t)

module _ (quote : String → String) (final : Attributes → String ⊎ Attributes) where
  unfoldable pub run : Program → Tracing → Option Raised × Tracing
  run done t = (none, t)
  run (raises e) t = (some e, t)
  run (acts a) t = (none, act a t)
  run (within start body) t =
      let (i, token, t1) = enter start t in
      let (raised, t2) = run body t1 in exit quote final i token raised t2
  run (followed_by p q) t =
      let (raised, t1) = run p t in elim raised [ some e ↦ (some e, t1) | none ↦ run q t1 ]
  run (trying body handler reraise) t =
      let (raised, t1) = run body t in
      elim raised [ none ↦ (none, t1) | some e ↦ handled reraise e (run (handler e) t1) ]

-- `name or fn.__qualname__`.
unfoldable pub name_or : Option String → String → String
name_or none default = default
name_or (some name) default = or_text name default

-- The wrapper of `observe_function`, of a function that does `body`; `latency` is what it measures.
unfoldable pub observe_function :
    Option String → SpanKind → Attributes → String → ℕ → Program → Program
observe_function name kind attributes qualname latency body =
    within (record { name = name_or name qualname; kind = kind; attributes = attributes })
      (followed_by (acts (attribute "code.function" (str qualname))) (
        trying
          (followed_by body (
            followed_by (acts (attribute "code.latency_ms" (float latency)))
              (acts (status (record { code = ok; description = none })))))
          (λ e. acts (attribute "code.latency_ms" (float latency))) true))

-- The wrapper of `observe_tool`.
unfoldable pub observe_tool :
    Option String → Option String → Attributes → String → ℕ → Program → Program
observe_tool tool_name tool_version attributes fn_name latency body =
    let resolved = name_or tool_name fn_name in
    within
      (record {
        name = str_append "tool." resolved;
        kind = tool;
        attributes =
            merge (put_some str "tool.version" tool_version (("tool.name", str resolved) ∷ []))
              attributes;
      })
      (trying
        (followed_by body (
          followed_by (acts (attribute "tool.latency_ms" (float latency))) (
            followed_by (acts (attribute "tool.status" (str "success")))
              (acts (status (record { code = ok; description = none }))))))
        (λ e. followed_by (acts (attribute "tool.latency_ms" (float latency))) (
          followed_by (acts (attribute "tool.status" (str "error")))
            (acts (attribute "tool.error_type" (str e.type_name)))))
        true)
