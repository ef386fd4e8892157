-- ===== src/Policy/Store.antt =====
-- The state of `PolicyEngine` of src/electripy/ai/policy/services.py, the exceptions of errors.py that
-- its methods raise, and `InMemoryPolicyRepository` of adapters.py.
use text.Mathlib.Text.{◌==◌ as str_eq}
use electripy_ai.Prelude.{
  ℕ, String, Bool, true, false, ◌&&◌, ◌||◌, Option, none, some, List, [], ◌∷◌, ◌++◌, if◌then◌else◌,
}
use electripy_ai.Prelude.Dict.{Dict}
use electripy_ai.Policy.Domain.{
  DecisionOutcome, EvidenceKind, ApprovalStatus, PolicyContext, PolicyRule, PolicyDecision,
  EscalationDirective, ApprovalRequest, ApprovalToken,
}
use electripy_ai.Policy.Evaluator.{contains, is_empty}

pub record PolicyEngineSettings : Type 0 where
  pub default_approval_ttl : ℕ
  pub enforce_evidence : Bool
  pub policy_version : String

-- `escalations` is what the handler has received, and `observed` what the observer has, when there is
-- one; `drawn` counts the identifiers that `uuid4` has given out.
pub record PolicyEngine : Type 0 where
  pub rules : List PolicyRule
  pub requests : Dict ApprovalRequest
  pub tokens : Dict ApprovalToken
  pub escalations : Option (List (EscalationDirective × PolicyContext))
  pub observed : Option (List (PolicyContext × PolicyDecision))
  pub settings : PolicyEngineSettings
  pub drawn : ℕ

-- `ApprovalError` with what its message says, `EvidenceError` and `PolicyPackError`.
pub data PolicyEngineError : Type 0 where
  not_require_approval : DecisionOutcome → PolicyEngineError
  request_not_found request_expired token_not_found token_expired : PolicyEngineError
  request_not_pending : ApprovalStatus → PolicyEngineError
  evidence_missing : List EvidenceKind → PolicyEngineError
  pack_empty pack_has_duplicates : PolicyEngineError
  rule_conflicts : String → PolicyEngineError

pub data Result {ℓ} (A : Type ℓ) : Type ℓ where
  ok : A → Result A
  raise : PolicyEngineError → Result A

abbrev pub is_ok {ℓ} : {A : Type ℓ} → Result A → Bool
is_ok (ok a) = true
is_ok (raise e) = false

-- One round of the loop of `list_rules`: whether the rule is appended.
unfoldable pub listed : Option String → PolicyRule → Bool
listed none rule = rule.enabled
listed (some resource_type) rule =
    rule.enabled
    && (str_eq resource_type ""
        || is_empty rule.resource_types
        || contains rule.resource_types resource_type)

unfoldable pub list_rules : Option String → List PolicyRule → List PolicyRule
list_rules resource_type [] = []
list_rules resource_type (rule ∷ rules) =
    let rest = list_rules resource_type rules in
    if listed resource_type rule then rule ∷ rest else rest

unfoldable pub add_rule : PolicyRule → PolicyEngine → PolicyEngine
add_rule rule e = record e { rules = e.rules ++ rule ∷ [] }
