-- ===== src/Policy/Engine/Decisions.antt =====
-- What the engine's decisions have to do with the rules it stores
-- (src/electripy/ai/policy/services.py).
use electripy_ai.Prelude.{◌≡◌, refl, some, List, [], ◌∷◌, arith}
use electripy_ai.Policy.Domain.{PolicyContext, PolicyRule}
use electripy_ai.Policy.Evaluator.{applies, matching, match_rules, is_empty, contains}
use electripy_ai.Policy.Evaluator as Evaluator
use electripy_ai.Policy.Store.{PolicyEngine, listed, list_rules}
use electripy_ai.Policy.Engine.{versioned, evaluate}

matching-list_rules :
    (context : PolicyContext) (rules : List PolicyRule)
    → matching context (list_rules (some context.resource.resource_type) rules)
      ≡ matching context rules
unfolding matching list_rules listed applies
matching-list_rules context [] = refl
matching-list_rules context (r ∷ rs) = ground (arith, matching-list_rules context rs)

-- The engine decides as the evaluator does on every stored rule, disabled ones and those of other
-- resource types included, and adds its policy version: the filter of the repository loses nothing.
pub evaluate-list_rules :
    (context : PolicyContext) (e : PolicyEngine)
    → (evaluate context e).0 ≡ versioned e.settings context (Evaluator.evaluate context e.rules)
unfolding evaluate Evaluator.evaluate match_rules
evaluate-list_rules context e = rw (matching-list_rules context e.rules)
