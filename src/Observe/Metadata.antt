-- ===== src/Observe/Metadata.antt =====
-- The metadata of src/electripy/observability/observe/domain.py and the attributes that `to_attributes`
-- makes of them. None and an empty sequence, which the code tells apart nowhere, are [].
use Prim.Native.String.{◌++◌ as str_append}
use electripy_ai.Prelude.{ℕ, String, Bool, Option, none, some, List, [], ◌∷◌}
use electripy_ai.Prelude.Names.{put}
use electripy_ai.Observe.Domain.{AttributeValue, str, int, float, bool, Attributes}

pub record GenAiRequestMetadata : Type 0 where
  pub provider : String
  pub model : String
  pub temperature : Option ℕ
  pub max_tokens : Option ℕ
  pub input_tokens : Option ℕ
  pub stop_sequences : List String
  pub tools : List String
  pub stream : Bool

pub record GenAiResponseMetadata : Type 0 where
  pub output_tokens : Option ℕ
  pub input_tokens : Option ℕ
  pub finish_reason : Option String
  pub model : Option String
  pub latency_ms : Option ℕ
  pub cache_hit : Option Bool

pub record ToolInvocationMetadata : Type 0 where
  pub tool_name : String
  pub tool_version : Option String
  pub status : Option String
  pub latency_ms : Option ℕ
  pub error_type : Option String

pub record RetrievalMetadata : Type 0 where
  pub source : String
  pub query_text_hash : Option String
  pub top_k : Option ℕ
  pub results_returned : Option ℕ
  pub latency_ms : Option ℕ
  pub score_min : Option ℕ
  pub score_max : Option ℕ

pub record PolicyDecisionMetadata : Type 0 where
  pub action : String
  pub policy_version : Option String
  pub violation_codes : List String
  pub redactions_applied : Bool
  pub latency_ms : Option ℕ

pub record McpMetadata : Type 0 where
  pub server_name : String
  pub tool_name : Option String
  pub protocol_version : Option String
  pub status : Option String
  pub latency_ms : Option ℕ
  pub error_type : Option String

-- `attrs[key] = value` where the field is not None.
unfoldable pub put_some :
    {A : Type 0} → (A → AttributeValue) → String → Option A → Attributes → Attributes
put_some value key none attributes = attributes
put_some value key (some a) attributes = put key (value a) attributes

-- `",".join`.
unfoldable pub join_commas : List String → String
join_commas [] = ""
join_commas (s ∷ []) = s
join_commas (s ∷ t ∷ rest) = str_append s (str_append "," (join_commas (t ∷ rest)))

unfoldable pub put_joined : String → List String → Attributes → Attributes
put_joined key [] attributes = attributes
put_joined key (s ∷ rest) attributes = put key (str (join_commas (s ∷ rest))) attributes

unfoldable pub request_attributes : GenAiRequestMetadata → Attributes
request_attributes m = put_joined "gen_ai.request.tools" m.tools (
    put_joined "gen_ai.request.stop_sequences" m.stop_sequences (
      put_some int "gen_ai.usage.input_tokens" m.input_tokens (
        put_some int "gen_ai.request.max_tokens" m.max_tokens (
          put_some float "gen_ai.request.temperature" m.temperature (
            ("gen_ai.system", str m.provider)
            ∷ ("gen_ai.request.model", str m.model)
            ∷ ("gen_ai.request.stream", bool m.stream)
            ∷ [])))))

unfoldable pub response_attributes : GenAiResponseMetadata → Attributes
response_attributes m = put_some bool "gen_ai.cache_hit" m.cache_hit (
    put_some float "gen_ai.latency_ms" m.latency_ms (
      put_some str "gen_ai.response.model" m.model (
        put_some str "gen_ai.response.finish_reason" m.finish_reason (
          put_some int "gen_ai.usage.input_tokens" m.input_tokens
            (put_some int "gen_ai.usage.output_tokens" m.output_tokens [])))))

unfoldable pub tool_attributes : ToolInvocationMetadata → Attributes
tool_attributes m = put_some str "tool.error_type" m.error_type (
    put_some float "tool.latency_ms" m.latency_ms (
      put_some str "tool.status" m.status
        (put_some str "tool.version" m.tool_version (("tool.name", str m.tool_name) ∷ []))))

unfoldable pub retrieval_attributes : RetrievalMetadata → Attributes
retrieval_attributes m = put_some float "retrieval.score_max" m.score_max (
    put_some float "retrieval.score_min" m.score_min (
      put_some float "retrieval.latency_ms" m.latency_ms (
        put_some int "retrieval.results_returned" m.results_returned (
          put_some int "retrieval.top_k" m.top_k (
            put_some str "retrieval.query_text_hash" m.query_text_hash
              (("retrieval.source", str m.source) ∷ []))))))

unfoldable pub policy_attributes : PolicyDecisionMetadata → Attributes
policy_attributes m = put_some float "policy.latency_ms" m.latency_ms (
    put "policy.redactions_applied" (bool m.redactions_applied) (
      put_joined "policy.violation_codes" m.violation_codes
        (put_some str "policy.version" m.policy_version (("policy.action", str m.action) ∷ []))))

unfoldable pub mcp_attributes : McpMetadata → Attributes
mcp_attributes m = put_some str "mcp.error_type" m.error_type (
    put_some float "mcp.latency_ms" m.latency_ms (
      put_some str "mcp.status" m.status (
        put_some str "mcp.protocol_version" m.protocol_version (
          put_some str "mcp.tool_name" m.tool_name (("mcp.server_name", str m.server_name) ∷ [])))))
