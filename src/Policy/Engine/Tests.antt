-- ===== src/Policy/Engine/Tests.antt =====
-- Concrete runs of the policy engine of src/electripy/ai/policy/services.py.
use electripy_ai.Prelude.{◌+◌, ◌≡◌, refl, true, none, some, List, [], ◌∷◌, ltb}
use electripy_ai.Prelude.Dict.{lookup, insert}
use electripy_ai.Policy.Domain.{
  require_approval, deny, redact, critical, low, pending, ticket_reference, EvidenceItem,
  PolicyRule, PolicyPack, ApprovalRequest, ApprovalToken,
}
use electripy_ai.Policy.Samples.{refund, rule}
use electripy_ai.Policy.Evaluator.{
  is_empty, match_rules, sort_rules, insert_rule, matching, applies, contains, priority_order,
  check_roles, check_evidence, share, satisfied, provided, all_provided, violated, violation,
  decide, resolve_outcome, outcomes, rule_map_get, has, first_escalation,
}
use electripy_ai.Policy.Evaluator as Evaluator
use electripy_ai.Policy.Store.{list_rules, listed, PolicyEngineSettings, PolicyEngine, is_ok}
use electripy_ai.Policy.Engine.{
  told, escalated, names, contains_kind, requires, shortest, approval_ttl, or_default, new_request,
  request_approval, versioned, evaluate, is_pending, missing, kept, new_token, grant,
  grant_approval, valid, validate_token,
}
use electripy_ai.Policy.Engine.Decisions.{evaluate-list_rules}
use electripy_ai.Policy.Engine.Tokens.{validate_token-grant_approval}
use electripy_ai.Policy.Engine.Sound.{Backed}
use electripy_ai.Policy.Engine.History.{
  Op, asks, grants, run, perform, new_engine, validated-Backed,
}

abbrev strict : PolicyEngineSettings
strict = record { default_approval_ttl = 60; enforce_evidence = true; policy_version = "v1" }

abbrev stored : List PolicyRule
stored =
    rule "pay" low require_approval ("admin" ∷ []) ∷ rule "mask" critical redact ("agent" ∷ []) ∷ []

abbrev asked : ApprovalRequest
asked = record {
  request_id = 0;
  subject = refund.subject;
  resource = refund.resource;
  action = refund.action;
  required_evidence = ticket_reference ∷ [];
  ttl = 60;
  status = pending;
  created_at = 5;
}

abbrev engine : PolicyEngine
engine = record {
  rules = stored;
  requests = (0, asked) ∷ [];
  tokens = [];
  escalations = some [];
  observed = none;
  settings = strict;
  drawn = 1;
}

abbrev ticket : List EvidenceItem
ticket = record { kind = ticket_reference; value = "T1"; provided_at = 3 } ∷ []

abbrev token : ApprovalToken
token = record {
  token_id = 1;
  request_id = 0;
  granted_by = "b";
  granted_at = 12;
  expires_at = 71;
  evidence = ticket;
}

abbrev pack : PolicyPack
pack = record {
  pack_id = "p";
  version = "1";
  rules = rule "new" low deny [] ∷ rule "pay" low redact [] ∷ rule "late" low redact [] ∷ [];
  description = "";
}

evaluate-list_rules_example :
    (evaluate refund engine).0
    ≡ versioned engine.settings refund (Evaluator.evaluate refund engine.rules)
evaluate-list_rules_example = evaluate-list_rules refund engine

validate_token-grant_approval_example :
    is_ok (validate_token 70 1 (grant_approval 10 11 12 0 "b" ticket engine).1) ≡ ltb 70 (11 + 60)
unfolding lookup is_pending missing kept Evaluator.provided new_token grant grant_approval
validate_token-grant_approval_example =
    validate_token-grant_approval 10 11 12 0 "b" ticket engine asked token 70 refl refl

program : Unit {0}
unfolding lookup insert run perform Evaluator.evaluate match_rules sort_rules insert_rule matching
    applies contains priority_order check_roles check_evidence share satisfied provided all_provided
    violated violation decide resolve_outcome outcomes rule_map_get has first_escalation list_rules
    listed versioned told escalated evaluate names contains_kind requires shortest approval_ttl
    or_default kept new_request request_approval is_pending missing new_token grant grant_approval
    valid validate_token
program = tt

abbrev history : List Op
history = asks 5 refund ∷ grants 10 11 12 0 "b" ticket ∷ grants 13 14 15 0 "b" ticket ∷ []

-- One request, granted twice: both tokens are valid.
validated_run :
    is_ok (validate_token 70 2 (run history (new_engine stored (some []) none strict))) ≡ true
unfolding program
validated_run = refl

validated-Backed_example :
    (token.token_id ≡ 1)
    × Backed true (run history (new_engine stored (some []) none strict)).requests token
unfolding program
validated-Backed_example = validated-Backed stored (some []) none strict history 70 1 token refl
