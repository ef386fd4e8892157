-- ===== src/Observe/Domain.antt =====
-- The spans' contexts, attributes and statuses of src/electripy/observability/observe/domain.py, and the
-- redaction rules. An identifier is the number of its draw, a float a natural number of one unit. A
-- pattern, and what a predicate does, are parameters of the code that uses the rules.
use text.Mathlib.Text.{◌==◌ as str_eq}
use electripy_ai.Prelude.{
  ℕ, String, Bool, true, Option, none, some, List, [], ◌∷◌, map, if◌then◌else◌,
}
use electripy_ai.Prelude.Names.{Names, put, get}

pub data AttributeValue : Type 0 where
  str : String → AttributeValue
  int float : ℕ → AttributeValue
  bool : Bool → AttributeValue
  none_value : AttributeValue

abbrev pub Attributes : Type 0
Attributes = Names AttributeValue

pub data SpanKind : Type 0 where
  internal client server producer consumer llm agent tool retrieval workflow policy mcp : SpanKind

pub data SpanStatusCode : Type 0 where
  unset ok error : SpanStatusCode

pub record SpanStatus : Type 0 where
  pub code : SpanStatusCode
  pub description : Option String

pub record TraceContext : Type 0 where
  pub trace_id : ℕ
  pub span_id : Option ℕ
  pub parent_span_id : Option ℕ
  pub request_id : Option String
  pub actor_id : Option String
  pub tenant_id : Option String
  pub environment : Option String
  pub baggage : Names String

-- The context that a tracer makes up where there is no parent.
unfoldable pub root_context : ℕ → ℕ → TraceContext
root_context trace_id span_id = record {
  trace_id = trace_id;
  span_id = some span_id;
  parent_span_id = none;
  request_id = none;
  actor_id = none;
  tenant_id = none;
  environment = none;
  baggage = [];
}

unfoldable pub child : TraceContext → ℕ → TraceContext
child c span_id = record c { span_id = some span_id; parent_span_id = c.span_id }

-- `dict.update` and `dict.setdefault`.
unfoldable pub merge : Attributes → Attributes → Attributes
merge attributes [] = attributes
merge attributes ((key, value) ∷ rest) = merge (put key value attributes) rest

unfoldable pub set_default : String → AttributeValue → Attributes → Attributes
set_default key value attributes = elim (get key attributes) [
  | none ↦ put key value attributes
  | some _ ↦ attributes
]

pub data RedactionRuleKind : Type 0 where
  exact pattern callable : RedactionRuleKind

-- The predicate is `none` where it raises.
pub record RedactionRule : Type 0 where
  pub kind : RedactionRuleKind
  pub pattern_text : String
  pub replacement : String
  pub predicate : Option (String → AttributeValue → Option Bool)

pub record RedactionPolicy : Type 0 where
  pub rules : List RedactionRule
  pub enabled : Bool
  pub default_replacement : String

-- `__post_init__`, with `compiles` for `re.compile`; `none` is its exception.
unfoldable pub checked_rule : (String → Bool) → RedactionRule → Option RedactionRule
checked_rule compiles rule = elim rule.kind [
  | exact ↦ some rule
  | pattern ↦
      if str_eq rule.pattern_text ""
      then some rule
      else if compiles rule.pattern_text
      then some rule
      else none
  | callable ↦ elim rule.predicate [ none ↦ none | some _ ↦ some rule ]
]

unfoldable pub exact_rule : String → RedactionRule
exact_rule key = record {
  kind = exact;
  pattern_text = key;
  replacement = "[REDACTED]";
  predicate = none;
}

-- `_DEFAULT_SENSITIVE_KEYS`, sorted.
abbrev pub default_sensitive_keys : List String
default_sensitive_keys =
    "api_key" ∷ "auth_header" ∷ "authorization" ∷ "completion" ∷ "content" ∷ "credit_card"
    ∷ "password" ∷ "prompt" ∷ "request_body" ∷ "response" ∷ "response_body" ∷ "secret" ∷ "ssn"
    ∷ "token" ∷ []

unfoldable pub enterprise_default : RedactionPolicy
enterprise_default = record {
  rules = map exact_rule default_sensitive_keys;
  enabled = true;
  default_replacement = "[REDACTED]";
}
