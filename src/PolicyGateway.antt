-- ===== src/PolicyGateway.antt =====
-- The decision of the policy gateway (src/electripy/ai/policy_gateway/services.py, domain.py). The
-- detector and the sanitizer are ports: a detector maps a stage and a text to its findings. A
-- decision has no `evaluated_at`, which no code reads.
pub mod Strictness
mod Tests
use Prim.Native.String
use Prim.Native.Nat.{Ordering}
use electripy_ai.Prelude.{
  ℕ, String, Bool, true, false, ◌&&◌, ◌||◌, Option, none, some, List, [], ◌∷◌, ◌==◌, if◌then◌else◌,
}

pub data PolicyAction : Type 0 where
  allow sanitize deny require_approval : PolicyAction

pub data PolicyStage : Type 0 where
  preflight postflight stream tool_call : PolicyStage

pub data PolicySeverity : Type 0 where
  low medium high critical : PolicySeverity

pub record PolicyFinding : Type 0 where
  pub rule_id : String
  pub code : String
  pub message : String
  pub severity : PolicySeverity
  pub action : PolicyAction
  pub start : Option ℕ
  pub end : Option ℕ

pub record PolicyGatewaySettings : Type 0 where
  pub policy_version : String
  pub deny_on_critical : Bool
  pub require_approval_on_high : Bool

pub record PolicyDecision : Type 0 where
  pub action : PolicyAction
  pub policy_version : String
  pub findings : List PolicyFinding
  pub reason_codes : List String
  pub sanitized_text : Option String
  pub requires_approval : Bool

-- `==` on the members of the enumerations, by their place.
abbrev action_place : PolicyAction → ℕ
action_place allow = 0
action_place sanitize = 1
action_place deny = 2
action_place require_approval = 3

abbrev severity_place : PolicySeverity → ℕ
severity_place low = 0
severity_place medium = 1
severity_place high = 2
severity_place critical = 3

-- `a in {finding.action for finding in findings}`.
pub has_action : PolicyAction → List PolicyFinding → Bool
has_action a [] = false
has_action a (f ∷ fs) = action_place f.action == action_place a || has_action a fs

pub has_severity : PolicySeverity → List PolicyFinding → Bool
has_severity s [] = false
has_severity s (f ∷ fs) = severity_place f.severity == severity_place s || has_severity s fs

-- `sorted` of a set: in order, each once.
pub insert_code : String → List String → List String
insert_code c [] = c ∷ []
insert_code c (d ∷ ds) = elim (Prim.Native.String.compare c d) [
  | Ordering.lt ↦ c ∷ d ∷ ds
  | Ordering.eq ↦ d ∷ ds
  | Ordering.gt ↦ d ∷ insert_code c ds
]

pub reason_codes_of : List PolicyFinding → List String
reason_codes_of [] = []
reason_codes_of (f ∷ fs) = insert_code f.code (reason_codes_of fs)

module _ (settings : PolicyGatewaySettings) (sanitizer : String → List PolicyFinding → String) where
  pub decision_of : PolicyAction → List PolicyFinding → Option String → Bool → PolicyDecision
  decision_of action findings text approval = record {
    action = action;
    policy_version = settings.policy_version;
    findings = findings;
    reason_codes = reason_codes_of findings;
    sanitized_text = text;
    requires_approval = approval;
  }

  pub build_decision : String → List PolicyFinding → PolicyDecision
  build_decision text [] = decision_of allow [] none false
  build_decision text (f ∷ fs) =
      let findings = f ∷ fs in
      if has_action deny findings
      then decision_of deny findings none false
      else if settings.deny_on_critical && has_severity critical findings
      then decision_of deny findings none false
      else if has_action require_approval findings
      then decision_of require_approval findings none true
      else if settings.require_approval_on_high && has_severity high findings
      then decision_of require_approval findings none true
      else decision_of sanitize findings (some (sanitizer text findings)) false

  pub evaluate : (PolicyStage → String → List PolicyFinding) → PolicyStage → String → PolicyDecision
  evaluate detect stage text = build_decision text (detect stage text)

  pub evaluate_preflight : (PolicyStage → String → List PolicyFinding) → String → PolicyDecision
  evaluate_preflight detect text = evaluate detect preflight text

  pub evaluate_postflight : (PolicyStage → String → List PolicyFinding) → String → PolicyDecision
  evaluate_postflight detect text = evaluate detect postflight text
