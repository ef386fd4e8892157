-- ===== src/Observe/Redaction.antt =====
-- `DefaultRedactor` of src/electripy/observability/observe/redaction.py. `lower` stands for `str.lower`,
-- `search` for compiling a pattern and searching a text for it, with `none` where it does not compile. The
-- cache of compiled patterns holds nothing else than what compiling gives.
pub mod Redacted
use text.Mathlib.Text.{◌==◌ as str_eq}
use electripy_ai.Prelude.{
  String, Bool, true, false, Option, none, some, List, [], ◌∷◌, ◌⊎◌, inl, inr,
}
use electripy_ai.Prelude.Names.{put}
use electripy_ai.Observe.Domain.{
  AttributeValue, str, Attributes, RedactionRule, exact, pattern, callable, RedactionPolicy,
}

-- `a or b` for texts.
unfoldable pub or_text : String → String → String
or_text s default = elim (str_eq s "") [ true ↦ default | false ↦ s ]

-- An exception of a predicate counts as a match.
unfoldable pub predicate_matches :
    Option (String → AttributeValue → Option Bool) → String → AttributeValue → Bool
predicate_matches none key value = false
predicate_matches (some p) key value = elim (p key value) [ none ↦ true | some b ↦ b ]

unfoldable pub replaced : Option String → AttributeValue → AttributeValue
replaced none value = value
replaced (some replacement) value = str replacement

module _ (lower : String → String) (search : String → String → Option Bool) where
  unfoldable pub rule_matches : RedactionRule → String → AttributeValue → Option Bool
  rule_matches rule key value = elim rule.kind [
    | exact ↦ some (str_eq (lower key) (lower rule.pattern_text))
    | pattern ↦ search rule.pattern_text key
    | callable ↦ some (predicate_matches rule.predicate key value)
  ]

  -- On the left the pattern of a `RedactionError`.
  unfoldable pub first_match :
      String → List RedactionRule → String → AttributeValue → String ⊎ Option String
  first_match default [] key value = inr none
  first_match default (rule ∷ rules) key value = elim (rule_matches rule key value) [
    | none ↦ inl rule.pattern_text
    | some true ↦ inr (some (or_text rule.replacement default))
    | some false ↦ first_match default rules key value
  ]

  unfoldable pub redact_into : RedactionPolicy → Attributes → Attributes → String ⊎ Attributes
  redact_into policy result [] = inr result
  redact_into policy result ((key, value) ∷ rest) =
      elim (first_match policy.default_replacement policy.rules key value) [
        | inl bad ↦ inl bad
        | inr found ↦ redact_into policy (put key (replaced found value) result) rest
      ]

  unfoldable pub redact : RedactionPolicy → Attributes → String ⊎ Attributes
  redact policy attributes = elim policy.enabled [
    | false ↦ inr attributes
    | true ↦ redact_into policy [] attributes
  ]
