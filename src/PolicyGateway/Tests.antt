-- ===== src/PolicyGateway/Tests.antt =====
-- Concrete decisions of src/electripy/ai/policy_gateway/services.py.
use electripy_ai.Prelude.{◌≡◌, refl, String, true, some, List, [], ◌∷◌}
use electripy_ai.PolicyGateway.{
  sanitize, low, high, PolicyFinding, PolicyGatewaySettings, has_action, has_severity, decision_of,
  build_decision,
}
use electripy_ai.PolicyGateway.Strictness.{strictness}

abbrev settings : PolicyGatewaySettings
settings = record {
  policy_version = "v1";
  deny_on_critical = true;
  require_approval_on_high = true;
}

abbrev masked : String → List PolicyFinding → String
masked text findings = "[REDACTED]"

abbrev mild : PolicyFinding
mild = record {
  rule_id = "r";
  code = "c";
  message = "m";
  severity = low;
  action = sanitize;
  start = some 0;
  end = some 2;
}

abbrev grave : PolicyFinding
grave = record mild { severity = high }

grave_run : strictness (build_decision settings masked "ab" (mild ∷ grave ∷ [])).action ≡ 2
unfolding has_action has_severity decision_of build_decision
grave_run = refl
