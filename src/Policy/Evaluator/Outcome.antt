-- ===== src/Policy/Evaluator/Outcome.antt =====
-- The outcome of an evaluation, in terms of the rules as they were given
-- (src/electripy/ai/policy/adapters.py).
use electripy_ai.Prelude.{
  ◌≡◌, refl, ◌∙◌, Bool, true, false, not, List, [], ◌∷◌, map, arith, if◌then◌else◌,
}
use electripy_ai.Policy.Domain.{
  DecisionOutcome, allow, deny, redact, require_approval, escalate, PolicyContext, PolicyRule,
  PolicyViolation, same_outcome,
}
use electripy_ai.Policy.Evaluator.{
  match_rules, violated, violation, outcomes, has, resolve_outcome, decide, evaluate,
}
use electripy_ai.Policy.Evaluator.Matching.{
  any, offends, distinct, Resolved, any-violated-match_rules, violated-Resolved,
}

has-outcomes :
    (o : DecisionOutcome) (context : PolicyContext) (matched bad : List PolicyRule)
    → Resolved matched bad
    → has o (outcomes matched (map (violation context) bad))
      ≡ any (λ r. same_outcome r.outcome o) bad
unfolding has outcomes any violation
has-outcomes o context matched [] h = refl
has-outcomes o context matched (r ∷ rs) h = ground (arith, has-outcomes o context matched rs h.1)

-- Some rule that is in force here is not satisfied.
pub offended : PolicyContext → List PolicyRule → Bool
offended context rules = any (offends context (λ r. true)) rules

-- Some rule with the outcome that is in force here is not satisfied.
pub calls_for : DecisionOutcome → PolicyContext → List PolicyRule → Bool
calls_for o context rules = any (offends context (λ r. same_outcome r.outcome o)) rules

decide_outcome :
    (context : PolicyContext) (matched bad : List PolicyRule)
    → (decide context matched bad).outcome ≡ (
        if any (λ r. true) bad
        then resolve_outcome (map (violation context) bad) matched
        else allow)
unfolding decide any
decide_outcome context matched [] = refl
decide_outcome context matched (r ∷ rs) = refl

resolve-ne-allow :
    (vs : List PolicyViolation) (matched : List PolicyRule)
    → same_outcome (resolve_outcome vs matched) allow ≡ false
unfolding resolve_outcome
resolve-ne-allow vs matched = ground arith

-- A request is allowed exactly when no rule that is enabled and applies to it is left unsatisfied,
-- whatever the rules' order, priorities and outcomes.
pub allowed_iff :
    (context : PolicyContext) (rules : List PolicyRule)
    → same_outcome (evaluate context rules).outcome allow ≡ not (offended context rules)
unfolding evaluate offended
allowed_iff context rules =
    let matched = match_rules context rules in
    let bad = violated context matched in
    ground (
      arith,
      decide_outcome context matched bad,
      any-violated-match_rules (λ r. true) context rules,
      resolve-ne-allow (map (violation context) bad) matched,
    )

-- The strictest outcome that some offended rule calls for.
pub strictest : PolicyContext → List PolicyRule → DecisionOutcome
strictest context rules =
    if not (offended context rules)
    then allow
    else if calls_for deny context rules
    then deny
    else if calls_for escalate context rules
    then escalate
    else if calls_for require_approval context rules
    then require_approval
    else if calls_for redact context rules
    then redact
    else deny

-- With distinct rule identifiers, the outcome is the strictest that an unsatisfied rule in force
-- calls for, in the order deny, escalate, require approval, redact; it is deny if there are such
-- rules but they call for none of these, and allow if there are none.
pub evaluate-strictest :
    (context : PolicyContext) (rules : List PolicyRule)
    → distinct rules ≡ true
    → (evaluate context rules).outcome ≡ strictest context rules
unfolding evaluate strictest offended calls_for resolve_outcome
evaluate-strictest context rules h =
    let matched = match_rules context rules in
    let bad = violated context matched in
    let resolved = violated-Resolved context rules h in
    ground (
      arith,
      decide_outcome context matched bad,
      any-violated-match_rules (λ r. true) context rules,
      has-outcomes deny context matched bad resolved
          ∙ any-violated-match_rules (λ r. same_outcome r.outcome deny) context rules,
      has-outcomes escalate context matched bad resolved
          ∙ any-violated-match_rules (λ r. same_outcome r.outcome escalate) context rules,
      has-outcomes require_approval context matched bad resolved
          ∙ any-violated-match_rules (λ r. same_outcome r.outcome require_approval) context rules,
      has-outcomes redact context matched bad resolved
          ∙ any-violated-match_rules (λ r. same_outcome r.outcome redact) context rules,
    )
