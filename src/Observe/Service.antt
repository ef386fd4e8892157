-- ===== src/Observe/Service.antt =====
-- `ObservabilityService` and the span context manager of
-- src/electripy/observability/observe/services.py, over the in-memory tracer, and the decorators of
-- decorators.py. `observe_span` has the statements of the context manager; an asynchronous task has a
-- `_current_span` of its own.
pub mod Program
use Prim.Native.String.{◌++◌ as str_append}
use electripy_ai.Prelude.{ℕ, String, ◌⊎◌, Option, none, some, [], ◌∷◌}
use electripy_ai.Prelude.Names.{put}
use electripy_ai.Observe.Domain.{
  str, Attributes, SpanKind, workflow, agent, llm, tool, retrieval, mcp, TraceContext, merge,
  set_default,
}
use electripy_ai.Observe.Metadata.{
  GenAiRequestMetadata, GenAiResponseMetadata, ToolInvocationMetadata, RetrievalMetadata,
  PolicyDecisionMetadata, McpMetadata, request_attributes, response_attributes, tool_attributes,
  retrieval_attributes, policy_attributes, mcp_attributes, put_some,
}
use electripy_ai.Observe.Tracer.{
  Raised, InMemorySpan, set_attributes, add_event, record_exception, Tracing, span_at, update_at,
  SpanStart, start_span, end_span,
}

unfoldable pub start_workflow_span : String → Attributes → SpanStart
start_workflow_span name attributes = record {
  name = name;
  kind = workflow;
  attributes = set_default "observe.span.semantic" (str "workflow") attributes;
}

unfoldable pub start_agent_span : String → Option String → Attributes → SpanStart
start_agent_span name agent_id attributes = record {
  name = name;
  kind = agent;
  attributes =
      put_some str "agent.id" agent_id
        (set_default "observe.span.semantic" (str "agent") attributes);
}

unfoldable pub start_llm_span :
    String → String → Option GenAiRequestMetadata → Attributes → SpanStart
start_llm_span provider model request_meta attributes =
    let own : Attributes = elim request_meta [
      | some m ↦ request_attributes m
      | none ↦ ("gen_ai.system", str provider) ∷ ("gen_ai.request.model", str model) ∷ []
    ] in
    record {
      name = str_append "llm." (str_append provider (str_append "." model));
      kind = llm;
      attributes = set_default "observe.span.semantic" (str "llm") (merge own attributes);
    }

unfoldable pub start_tool_span : String → Option String → Attributes → SpanStart
start_tool_span tool_name tool_version attributes = record {
  name = str_append "tool." tool_name;
  kind = tool;
  attributes = set_default "observe.span.semantic" (str "tool") (
      merge (put_some str "tool.version" tool_version (("tool.name", str tool_name) ∷ []))
        attributes);
}

unfoldable pub start_retrieval_span : String → Option RetrievalMetadata → Attributes → SpanStart
start_retrieval_span source meta attributes =
    let own : Attributes = elim meta [
      | some m ↦ retrieval_attributes m
      | none ↦ ("retrieval.source", str source) ∷ []
    ] in
    record {
      name = str_append "retrieval." source;
      kind = retrieval;
      attributes = set_default "observe.span.semantic" (str "retrieval") (merge own attributes);
    }

unfoldable pub start_mcp_span : String → Option McpMetadata → Attributes → SpanStart
start_mcp_span server_name meta attributes =
    let own : Attributes = elim meta [
      | some m ↦ mcp_attributes m
      | none ↦ ("mcp.server_name", str server_name) ∷ []
    ] in
    record {
      name = str_append "mcp." server_name;
      kind = mcp;
      attributes = set_default "observe.span.semantic" (str "mcp") (merge own attributes);
    }

-- `span or current_span()`.
unfoldable pub target_of : Option ℕ → Tracing → Option ℕ
target_of (some i) t = some i
target_of none t = t.current

unfoldable pub on_span : Option ℕ → (InMemorySpan → InMemorySpan) → Tracing → Tracing
on_span none change t = t
on_span (some i) change t = record t { spans = update_at i change t.spans }

unfoldable pub record_policy_decision : PolicyDecisionMetadata → Option ℕ → Tracing → Tracing
record_policy_decision meta span t =
    on_span (target_of span t) (add_event "policy.decision" (some (policy_attributes meta))) t

unfoldable pub note_exception : Raised → Option ℕ → Option Attributes → Tracing → Tracing
note_exception e span attributes t = on_span (target_of span t) (record_exception e attributes) t

unfoldable pub annotate_span : Attributes → Option ℕ → Tracing → Tracing
annotate_span attributes span t = on_span (target_of span t) (set_attributes attributes) t

unfoldable pub record_llm_response : GenAiResponseMetadata → Option ℕ → Tracing → Tracing
record_llm_response meta span t =
    on_span (target_of span t) (set_attributes (response_attributes meta)) t

unfoldable pub record_tool_result : ToolInvocationMetadata → Option ℕ → Tracing → Tracing
record_tool_result meta span t =
    on_span (target_of span t) (set_attributes (tool_attributes meta)) t

unfoldable pub context_at : Option ℕ → Tracing → Option TraceContext
context_at none t = none
context_at (some i) t = elim (span_at i t.spans) [ none ↦ none | some s ↦ some s.context ]

-- `__enter__`: the span, and the token that restores the one before.
unfoldable pub enter : SpanStart → Tracing → ℕ × Option ℕ × Tracing
enter start t =
    let (i, t') = start_span start (context_at t.current t) t in
    (i, t.current, record t' { current = some i })

unfoldable pub exception_noted : ℕ → Option Raised → Tracing → Tracing
exception_noted i none t = t
exception_noted i (some e) t = on_span (some i) (record_exception e none) t

-- An exception of `end` passes, and the span before is not restored; else the body's own passes.
unfoldable pub left_with :
    Option ℕ → Option Raised → Option Raised × Tracing → Option Raised × Tracing
left_with token raised (some e, t) = (some e, t)
left_with token raised (none, t) = (raised, record t { current = token })

module _ (quote : String → String) (final : Attributes → String ⊎ Attributes) where
  -- `__exit__`, with the exception of the body.
  unfoldable pub exit : ℕ → Option ℕ → Option Raised → Tracing → Option Raised × Tracing
  exit i token raised t =
      left_with token raised (end_span quote final i (exception_noted i raised t))
