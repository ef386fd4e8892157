-- ===== src/Policy/Evaluator.antt =====
-- `DefaultPolicyEvaluator` of src/electripy/ai/policy/adapters.py.
pub mod Matching
pub mod Outcome
mod Tests
use Prim.Native.String.{◌++◌ as str_append}
use text.Mathlib.Text.{◌==◌ as str_eq}
use electripy_ai.Prelude.{
  ℕ, String, Bool, true, false, not, ◌&&◌, ◌||◌, Option, none, some, List, [], ◌∷◌, map, leb,
  if◌then◌else◌,
}
use electripy_ai.Policy.Domain.{
  DecisionOutcome, allow, deny, redact, require_approval, escalate, RulePriority, low, medium, high,
  critical, EvidenceKind, justification, ticket_reference, approval_token, mfa_challenge, audit_log,
  EvidenceItem, PolicyContext, RedactionDirective, EscalationDirective, PolicyRule, DecisionReason,
  PolicyViolation, PolicyDecision, same_outcome, same_kind,
}

unfoldable pub contains : List String → String → Bool
contains [] s = false
contains (t ∷ ts) s = str_eq t s || contains ts s

abbrev pub is_empty {ℓ} : {A : Type ℓ} → List A → Bool
is_empty [] = true
is_empty (x ∷ xs) = false

-- One round of the loop of `_match_rules`: whether the rule is appended.
unfoldable pub applies : PolicyContext → PolicyRule → Bool
applies context rule =
    rule.enabled
    && ((is_empty rule.resource_types
          || contains rule.resource_types context.resource.resource_type)
        && (is_empty rule.action_types || contains rule.action_types context.action.action_type))

unfoldable pub matching : PolicyContext → List PolicyRule → List PolicyRule
matching context [] = []
matching context (rule ∷ rules) =
    let rest = matching context rules in if applies context rule then rule ∷ rest else rest

unfoldable pub priority_order : RulePriority → ℕ
priority_order critical = 0
priority_order high = 1
priority_order medium = 2
priority_order low = 3

-- `list.sort` with a key: stable, as an insertion from the end.
unfoldable pub insert_rule : PolicyRule → List PolicyRule → List PolicyRule
insert_rule rule [] = rule ∷ []
insert_rule rule (r ∷ rs) =
    if leb (priority_order rule.priority) (priority_order r.priority)
    then rule ∷ r ∷ rs
    else r ∷ insert_rule rule rs

unfoldable pub sort_rules : List PolicyRule → List PolicyRule
sort_rules [] = []
sort_rules (rule ∷ rules) = insert_rule rule (sort_rules rules)

unfoldable pub match_rules : PolicyContext → List PolicyRule → List PolicyRule
match_rules context rules = sort_rules (matching context rules)

unfoldable pub provided : List EvidenceItem → EvidenceKind → Bool
provided [] kind = false
provided (e ∷ es) kind = same_kind e.kind kind || provided es kind

unfoldable pub all_provided : List EvidenceItem → List EvidenceKind → Bool
all_provided evidence [] = true
all_provided evidence (kind ∷ kinds) = provided evidence kind && all_provided evidence kinds

unfoldable pub check_evidence : PolicyContext → PolicyRule → Bool
check_evidence context rule =
    is_empty rule.required_evidence || all_provided context.evidence rule.required_evidence

unfoldable pub share : List String → List String → Bool
share [] required = false
share (role ∷ roles) required = contains required role || share roles required

unfoldable pub check_roles : PolicyContext → PolicyRule → Bool
check_roles context rule =
    is_empty rule.required_roles || share context.subject.roles rule.required_roles

unfoldable pub satisfied : PolicyContext → PolicyRule → Bool
satisfied context rule = check_roles context rule && check_evidence context rule

join : String → List String → String
join sep [] = ""
join sep (s ∷ []) = s
join sep (s ∷ t ∷ ts) = str_append s (str_append sep (join sep (t ∷ ts)))

kind_value : EvidenceKind → String
kind_value justification = "justification"
kind_value ticket_reference = "ticket_reference"
kind_value approval_token = "approval_token"
kind_value mfa_challenge = "mfa_challenge"
kind_value audit_log = "audit_log"

pub build_violation_message : PolicyRule → Bool → Bool → String
build_violation_message rule role_ok evidence_ok =
    let roles = str_append "; Required roles: " (join ", " rule.required_roles) in
    let evidence =
      str_append "; Required evidence: " (join ", " (map kind_value rule.required_evidence)) in
    str_append rule.description
      (str_append (if role_ok then "" else roles) (if evidence_ok then "" else evidence))

-- The rules that the loop of `evaluate` does not `continue` past.
unfoldable pub violated : PolicyContext → List PolicyRule → List PolicyRule
violated context [] = []
violated context (rule ∷ rules) =
    let rest = violated context rules in if satisfied context rule then rest else rule ∷ rest

pub message : PolicyContext → PolicyRule → String
message context rule =
    build_violation_message rule (check_roles context rule) (check_evidence context rule)

unfoldable pub violation : PolicyContext → PolicyRule → PolicyViolation
violation context rule = record {
  rule_id = rule.rule_id;
  priority = rule.priority;
  message = message context rule;
}

pub reason : PolicyContext → PolicyRule → DecisionReason
reason context rule = record { rule_id = rule.rule_id; message = message context rule }

pub redactions_of : List PolicyRule → List RedactionDirective
redactions_of [] = []
redactions_of (rule ∷ rules) =
    let rest = redactions_of rules in elim rule.redaction [ none ↦ rest | some d ↦ d ∷ rest ]

unfoldable pub first_escalation : List PolicyRule → Option EscalationDirective
first_escalation [] = none
first_escalation (rule ∷ rules) =
    let rest = first_escalation rules in elim rule.escalation [ none ↦ rest | some d ↦ some d ]

-- `rule_map.get(rule_id)`: a later rule of the same identifier replaces an earlier one.
unfoldable pub rule_map_get : List PolicyRule → String → Option PolicyRule
rule_map_get [] id = none
rule_map_get (rule ∷ rules) id =
    let later = rule_map_get rules id in
    elim later [ none ↦ if str_eq rule.rule_id id then some rule else none | some r ↦ some r ]

unfoldable pub outcomes : List PolicyRule → List PolicyViolation → List DecisionOutcome
outcomes matched [] = []
outcomes matched (v ∷ vs) =
    let rest = outcomes matched vs in
    elim (rule_map_get matched v.rule_id) [ none ↦ rest | some rule ↦ rule.outcome ∷ rest ]

unfoldable pub has : DecisionOutcome → List DecisionOutcome → Bool
has o [] = false
has o (p ∷ ps) = same_outcome p o || has o ps

unfoldable pub resolve_outcome : List PolicyViolation → List PolicyRule → DecisionOutcome
resolve_outcome violations matched =
    let os = outcomes matched violations in
    if has deny os
    then deny
    else if has escalate os
    then escalate
    else if has require_approval os
    then require_approval
    else if has redact os
    then redact
    else deny

abbrev allowed : PolicyContext → PolicyDecision
allowed context = record {
  outcome = allow;
  violations = [];
  reasons = [];
  redactions = [];
  escalation = none;
  policy_version = "";
  request_id = context.request_id;
}

-- The two early returns are one: without a matching rule there is no violation either.
unfoldable pub decide : PolicyContext → List PolicyRule → List PolicyRule → PolicyDecision
decide context matched [] = allowed context
decide context matched (r ∷ rs) =
    let bad = r ∷ rs in
    record {
      outcome = resolve_outcome (map (violation context) bad) matched;
      violations = map (violation context) bad;
      reasons = map (reason context) bad;
      redactions = redactions_of bad;
      escalation = first_escalation bad;
      policy_version = "";
      request_id = context.request_id;
    }

unfoldable pub evaluate : PolicyContext → List PolicyRule → PolicyDecision
evaluate context rules =
    let matched = match_rules context rules in decide context matched (violated context matched)
