-- ===== src/Observe/Redaction/Redacted.antt =====
-- What a redaction makes of attributes, by the rules (src/electripy/observability/observe/redaction.py).
use text.Mathlib.Text.{◌==◌ as str_eq}
use text.Mathlib.TextEquality.{eq_iff}
use electripy_ai.Prelude.{
  ◌≡◌, ◌≢◌, refl, sym, ap, ◌∙◌, subst, String, Bool, true, false, Option, none, some, List, [], ◌∷◌,
  ◌++◌, ◌⊎◌, inl, inr, All, Paired, arith, append_assoc, Option-cases, Bool-cases, some-injective,
  append-nil,
}
use electripy_ai.Prelude.Names.{get, put, get-put, Distinct, put_fresh}
use electripy_ai.Observe.Domain.{
  AttributeValue, str, Attributes, RedactionRuleKind, exact, pattern, callable, RedactionRule,
  RedactionPolicy,
}
use electripy_ai.Observe.Redaction.{
  or_text, predicate_matches, replaced, rule_matches, first_match, redact_into, redact,
}

module _ (lower : String → String) (search : String → String → Option Bool) where
  -- A rule matches an attribute: by its key, by a pattern in its key, or by a predicate that says so or
  -- raises.
  abbrev pub MatchesBy : RedactionRuleKind → RedactionRule → String → AttributeValue → Type 0
  MatchesBy exact rule key value = lower key ≡ lower rule.pattern_text
  MatchesBy pattern rule key value = search rule.pattern_text key ≡ some true
  MatchesBy callable rule key value =
      (p : String → AttributeValue → Option Bool) × (rule.predicate ≡ some p)
      × (p key value ≢ some false)

  abbrev pub Matches : RedactionRule → String → AttributeValue → Type 0
  Matches rule key value = MatchesBy rule.kind rule key value

  -- A rule's replacement, or the policy's where that is empty.
  abbrev pub Replacement : String → RedactionRule → String → Type 0
  Replacement default rule text =
      ((rule.replacement ≡ "") × (text ≡ default))
      ⊎ ((rule.replacement ≢ "") × (text ≡ rule.replacement))

  -- What is to become of a value: the replacement of the first rule that matches, or where none does the
  -- value itself.
  abbrev pub RedactedTo :
      String → List RedactionRule → String → AttributeValue → AttributeValue → Type 0
  RedactedTo default [] key value after = after ≡ value
  RedactedTo default (rule ∷ rules) key value after =
      (Matches rule key value
        × ((text : String) × Replacement default rule text × (after ≡ str text)))
      ⊎ (¬ Matches rule key value × RedactedTo default rules key value after)

  -- The patterns compile, as `__post_init__` checks.
  abbrev pub Compiles : RedactionRule → Type 0
  Compiles rule = rule.kind ≡ pattern → (key : String) → search rule.pattern_text key ≢ none

  or_text-Replacement :
      (default : String) (rule : RedactionRule)
      → Replacement default rule (or_text rule.replacement default)
  unfolding or_text
  or_text-Replacement default rule = elim (Bool-cases (str_eq rule.replacement "")) [
    | inl e ↦ inl (ground (arith, e, eq_iff rule.replacement ""), ground (arith, e))
    | inr e ↦ inr (ground (arith, e, eq_iff rule.replacement ""), ground (arith, e))
  ]

  -- A rule says whether it matches.
  Decided : RedactionRuleKind → RedactionRule → String → AttributeValue → Option Bool → Type 0
  Decided kind rule key value said =
      ((said ≡ some true) × MatchesBy kind rule key value)
      ⊎ ((said ≡ some false) × (¬ MatchesBy kind rule key value))

  key_decides :
      (rule : RedactionRule) (key : String) (value : AttributeValue)
      → Decided exact rule key value (some (str_eq (lower key) (lower rule.pattern_text)))
  unfolding Decided
  key_decides rule key value = elim (Bool-cases (str_eq (lower key) (lower rule.pattern_text))) [
    | inl e ↦ inl (ap some e, (eq_iff (lower key) (lower rule.pattern_text)).0 e)
    | inr e ↦
        inr
          (ap some e, λ same. ground (arith, e, same, eq_iff (lower key) (lower rule.pattern_text)))
  ]

  pattern_decides :
      (rule : RedactionRule) (key : String) (value : AttributeValue)
      → ((asked : String) → search rule.pattern_text asked ≢ none)
      → Decided pattern rule key value (search rule.pattern_text key)
  unfolding Decided
  pattern_decides rule key value compiles = elim (Option-cases (search rule.pattern_text key)) [
    | inl e ↦ absurd (compiles key e)
    | inr (true, e) ↦ inl (e, e)
    | inr (false, e) ↦ inr (e, λ same. ground (arith, e, same))
  ]

  predicate_decides :
      (rule : RedactionRule) (key : String) (value : AttributeValue)
      (predicate : Option (String → AttributeValue → Option Bool))
      → rule.predicate ≡ predicate
      → Decided callable rule key value (some (predicate_matches predicate key value))
  unfolding Decided predicate_matches
  predicate_decides rule key value none e = inr (refl, λ m. ground (arith, e, m.1))
  predicate_decides rule key value (some p) e = elim (Option-cases (p key value)) [
    | inl x ↦ inl (ground (arith, x), (p, e, λ f. ground (arith, x, f)))
    | inr (true, x) ↦ inl (ground (arith, x), (p, e, λ f. ground (arith, x, f)))
    | inr (false, x) ↦ inr (
      ground (arith, x),
      λ m. let same = some-injective p m.0 (sym e ∙ m.1) in m.2 (sym (λ i. same i key value) ∙ x),
    )
  ]

  rule_decides :
      (rule : RedactionRule) (key : String) (value : AttributeValue)
      → Compiles rule
      → Decided rule.kind rule key value (rule_matches lower search rule key value)
  unfolding rule_matches
  rule_decides rule key value compiles =
      let by : (k : RedactionRuleKind)
          → rule.kind ≡ k
          → Decided k rule key value (elim k [
            | exact ↦ some (str_eq (lower key) (lower rule.pattern_text))
            | pattern ↦ search rule.pattern_text key
            | callable ↦ some (predicate_matches rule.predicate key value)
          ]) =
        elim [
          | exact ↦ λ e. key_decides rule key value
          | pattern ↦ λ e. pattern_decides rule key value (compiles e)
          | callable ↦ λ e. predicate_decides rule key value rule.predicate refl
        ] in
      by rule.kind refl

  -- The rules find what a value is to become.
  first_match-RedactedTo :
      (default : String) (rules : List RedactionRule) (key : String) (value : AttributeValue)
      → All Compiles rules
      → (found : Option String) × (first_match lower search default rules key value ≡ inr found)
        × RedactedTo default rules key value (replaced found value)
  unfolding first_match replaced Decided
  first_match-RedactedTo default [] key value c = (none, refl, refl)
  first_match-RedactedTo default (rule ∷ rules) key value c =
      elim (rule_decides rule key value c.0) [
        | inl (e, matches) ↦
            let text = or_text rule.replacement default in
            (
              some text,
              ground (arith, e),
              inl (matches, (text, or_text-Replacement default rule, refl)),
            )
        | inr (e, passes) ↦
            let (found, f, rest) = first_match-RedactedTo default rules key value c.1 in
            (found, ground (arith, e, f), inr (passes, rest))
      ]

  -- An attribute with its value redacted.
  abbrev pub IsRedacted :
      RedactionPolicy → String × AttributeValue → String × AttributeValue → Type 0
  IsRedacted policy before after =
      (after.0 ≡ before.0)
      × RedactedTo policy.default_replacement policy.rules before.0 before.1 after.1

  module _ (policy : RedactionPolicy) (compiled : All Compiles policy.rules) where
    -- The names that are done and those that are to come differ.
    Apart : Attributes → Attributes → Type 0
    Apart result rest = (key : String) → (get key result ≡ none) ⊎ (get key rest ≡ none)

    Apart-put :
        (result : Attributes) (key : String) (value after : AttributeValue) (rest : Attributes)
        → get key rest ≡ none
        → Apart result ((key, value) ∷ rest)
        → Apart (put key after result) rest
    unfolding Apart get
    Apart-put result key value after rest e apart asked = elim (Bool-cases (str_eq key asked)) [
      | inl same ↦ inr (subst (λ k. get k rest ≡ none) ((eq_iff key asked).0 same) e)
      | inr other ↦ elim (apart asked) [
        | inl f ↦ inl (ground (arith, get-put key asked after result, other, f))
        | inr f ↦ inr (ground (arith, other, f))
      ]
    ]

    redact_into-IsRedacted :
        (result attributes : Attributes)
        → Distinct attributes
        → Apart result attributes
        → (after : Attributes) × (redact_into lower search policy result attributes
            ≡ inr (result ++ after))
          × Paired (IsRedacted policy) attributes after
    unfolding redact_into Apart get
    redact_into-IsRedacted result [] d apart = ([], ap inr (sym (append-nil result)), tt)
    redact_into-IsRedacted result ((key, value) ∷ rest) d apart =
        let (found, e, redacted) =
          first_match-RedactedTo policy.default_replacement policy.rules key value compiled in
        let value' = replaced found value in
        let new : get key result ≡ none = elim (apart key) [
          | inl f ↦ f
          | inr f ↦ absurd (ground (arith, f, eq_iff key key))
        ] in
        let (after, f, pairs) =
          redact_into-IsRedacted (put key value' result) rest d.1
            (Apart-put result key value value' rest d.0 apart) in
        let moved : put key value' result ++ after ≡ result ++ (key, value') ∷ after =
          ap (λ r. r ++ after) (put_fresh key value' result new)
          ∙ append_assoc result ((key, value') ∷ []) after in
        (
          (key, value') ∷ after,
          ap
                (λ m. elim m as (λ _. String ⊎ Attributes) [
                  | inl bad ↦ inl bad
                  | inr x ↦ redact_into lower search policy (put key (replaced x value) result) rest
                ])
                e
              ∙ f
              ∙ ap inr moved,
          ((refl, redacted), pairs),
        )

    redact_into_total :
        (result attributes : Attributes)
        → (after : Attributes) × (redact_into lower search policy result attributes ≡ inr after)
    unfolding redact_into
    redact_into_total result [] = (result, refl)
    redact_into_total result ((key, value) ∷ rest) =
        let (found, e, redacted) =
          first_match-RedactedTo policy.default_replacement policy.rules key value compiled in
        let (after, f) = redact_into_total (put key (replaced found value) result) rest in
        (after, ground (arith, e, f))

    -- A redaction of an enabled policy does not raise, and where no name stands twice it redacts each
    -- attribute in its place.
    pub redact-IsRedacted :
        (attributes : Attributes)
        → policy.enabled ≡ true
        → (after : Attributes) × (redact lower search policy attributes ≡ inr after)
          × (Distinct attributes → Paired (IsRedacted policy) attributes after)
    unfolding redact Apart get
    redact-IsRedacted attributes on =
        let (after, e) = redact_into_total [] attributes in
        (
          after,
          ground (arith, on, e),
          λ d.
              let (after', f, pairs) = redact_into-IsRedacted [] attributes d (λ k. inl refl) in
              subst (Paired (IsRedacted policy) attributes) (ground (arith, e, f)) pairs,
        )
