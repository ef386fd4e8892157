-- ===== src/PolicyGateway/Strictness.antt =====
-- How strict the decisions of src/electripy/ai/policy_gateway/services.py are.
use electripy_ai.Prelude.{
  ℕ, ◌≡◌, refl, String, Option, ◌==◌, Bool, true, false, not, ◌&&◌, ◌||◌, none, some, List, [], ◌∷◌,
  arith, if◌then◌else◌,
}
use electripy_ai.PolicyGateway.{
  PolicyAction, allow, sanitize, deny, require_approval, PolicyFinding, PolicyGatewaySettings,
  decision_of, build_decision,
}

-- From the mildest action to the strictest.
abbrev pub strictness : PolicyAction → ℕ
strictness allow = 0
strictness sanitize = 1
strictness require_approval = 2
strictness deny = 3

pub found : List PolicyFinding → Bool
found [] = false
found (f ∷ fs) = true

-- The strictness of a decision, from what stands among its findings.
level : PolicyGatewaySettings → Bool → Bool → Bool → Bool → Bool → ℕ
level settings some_found denies criticals approvals highs =
    if not some_found
    then 0
    else if denies || settings.deny_on_critical && criticals
    then 3
    else if approvals || settings.require_approval_on_high && highs
    then 2
    else 1

abbrev pub is_some {ℓ} : {A : Type ℓ} → Option A → Bool
is_some none = false
is_some (some a) = true

-- The parts of a decision agree: it carries a sanitized text exactly if its action is to sanitize,
-- it asks for approval exactly if its action is to, and it allows exactly if there are no findings.
decision_consistent :
    (settings : PolicyGatewaySettings) (sanitizer : String → List PolicyFinding → String)
    (text : String) (findings : List PolicyFinding)
    → let d = build_decision settings sanitizer text findings in
      (is_some d.sanitized_text ≡ (strictness d.action == 1))
      × (d.requires_approval ≡ (strictness d.action == 2))
      × (found findings ≡ not (strictness d.action == 0))
unfolding build_decision decision_of found
decision_consistent settings sanitizer text [] = (refl, refl, refl)
decision_consistent settings sanitizer text (f ∷ fs) = (ground arith, ground arith, ground arith)
