-- ===== src/Policy/Evaluator/Tests.antt =====
-- Concrete runs of the policy evaluator of src/electripy/ai/policy/adapters.py.
use electripy_ai.Prelude.{◌≡◌, refl, not, List, [], ◌∷◌}
use electripy_ai.Policy.Domain.{
  allow, deny, redact, require_approval, low, critical, PolicyRule, same_outcome,
}
use electripy_ai.Policy.Evaluator.{
  evaluate, match_rules, sort_rules, insert_rule, matching, applies, contains, is_empty,
  priority_order, check_roles, check_evidence, share, satisfied, provided, all_provided, violated,
  violation, decide, resolve_outcome, outcomes, rule_map_get, has,
}
use electripy_ai.Policy.Samples.{refund, rule}
use electripy_ai.Policy.Evaluator.Matching.{any, named, distinct}
use electripy_ai.Policy.Evaluator.Outcome.{offended, strictest, allowed_iff, evaluate-strictest}

program : Unit {0}
unfolding evaluate match_rules sort_rules insert_rule matching applies contains is_empty
    priority_order check_roles check_evidence share satisfied provided all_provided violated
    violation decide resolve_outcome outcomes rule_map_get has
program = tt

abbrev met : PolicyRule
met = rule "met" critical deny ("agent" ∷ "admin" ∷ [])

abbrev masked : PolicyRule
masked = rule "mask" critical redact ("admin" ∷ [])

abbrev wanted : PolicyRule
wanted = rule "want" low require_approval ("admin" ∷ [])

allowed_iff_example :
    same_outcome (evaluate refund (met ∷ wanted ∷ [])).outcome allow
    ≡ not (offended refund (met ∷ wanted ∷ []))
allowed_iff_example = allowed_iff refund (met ∷ wanted ∷ [])

evaluate-strictest_example :
    (evaluate refund (masked ∷ met ∷ wanted ∷ [])).outcome
    ≡ strictest refund (masked ∷ met ∷ wanted ∷ [])
unfolding distinct named any
evaluate-strictest_example = evaluate-strictest refund (masked ∷ met ∷ wanted ∷ []) refl

-- A rule of critical priority does not decide alone: the stricter outcome of a low one does.
strictest_run : (evaluate refund (masked ∷ met ∷ wanted ∷ [])).outcome ≡ require_approval
unfolding program
strictest_run = refl

-- Two rules of one identifier: the outcome of the first, deny, is lost.
abbrev twins : List PolicyRule
twins = rule "mask" critical deny ("admin" ∷ []) ∷ rule "mask" low redact ("agent" ∷ []) ∷ []

masked_run : (evaluate refund twins).outcome ≡ redact
unfolding program
masked_run = refl
