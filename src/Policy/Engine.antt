-- ===== src/Policy/Engine.antt =====
-- `PolicyEngine` of src/electripy/ai/policy/services.py, with the in-memory repository, approval store
-- and escalation handler of adapters.py and the evaluator `DefaultPolicyEvaluator`. A method maps the
-- engine to its result, or the exception that it raises, and the engine afterwards. What the clock
-- reads is an argument, one for each reading. Log messages are left out.
pub mod Tokens
pub mod Packs
pub mod Decisions
pub mod Sound
pub mod History
mod Tests
use text.Mathlib.Text.{◌==◌ as str_eq}
use electripy_ai.Prelude.{
  ℕ, ◌+◌, String, Bool, true, false, not, ◌&&◌, ◌||◌, Option, none, some, List, [], ◌∷◌, ◌++◌, ltb,
  ◌==◌, if◌then◌else◌,
}
use electripy_ai.Prelude.Dict.{Dict, lookup, insert}
use electripy_ai.Policy.Domain.{
  DecisionOutcome, require_approval, EvidenceKind, justification, ticket_reference, approval_token,
  mfa_challenge, audit_log, EvidenceItem, ApprovalStatus, pending, approved, denied, expired,
  PolicyContext, PolicyRule, PolicyPack, PolicyDecision, PolicyViolation, EscalationDirective,
  ApprovalRequest, ApprovalToken, same_outcome, same_kind,
}
use electripy_ai.Policy.Evaluator.{contains, is_empty, provided}
use electripy_ai.Policy.Evaluator as Evaluator
use electripy_ai.Policy.Store.{
  PolicyEngineSettings, PolicyEngine, PolicyEngineError, not_require_approval, request_not_found,
  request_expired, token_not_found, token_expired, request_not_pending, evidence_missing,
  pack_empty, pack_has_duplicates, rule_conflicts, Result, ok, raise, is_ok, listed, list_rules,
  add_rule,
}

-- Attaches the policy version.
pub versioned : PolicyEngineSettings → PolicyContext → PolicyDecision → PolicyDecision
versioned settings context decision = record decision {
  policy_version = settings.policy_version;
  request_id = if str_eq decision.request_id "" then context.request_id else decision.request_id;
}

pub told {ℓ} : {A : Type ℓ} → A → Option (List A) → Option (List A)
told a none = none
told a (some heard) = some (heard ++ a ∷ [])

pub escalated :
    Option EscalationDirective
    → PolicyContext
    → Option (List (EscalationDirective × PolicyContext))
    → Option (List (EscalationDirective × PolicyContext))
escalated none context handler = handler
escalated (some directive) context handler = told (directive, context) handler

pub evaluate : PolicyContext → PolicyEngine → PolicyDecision × PolicyEngine
evaluate context e =
    let rules = list_rules (some context.resource.resource_type) e.rules in
    let decision = versioned e.settings context (Evaluator.evaluate context rules) in
    (
      decision,
      record e {
        escalations = escalated decision.escalation context e.escalations;
        observed = told (context, decision) e.observed;
      },
    )

pub names : List PolicyViolation → String → Bool
names [] id = false
names (v ∷ vs) id = str_eq v.rule_id id || names vs id

pub contains_kind : List EvidenceKind → EvidenceKind → Bool
contains_kind [] kind = false
contains_kind (k ∷ ks) kind = same_kind k kind || contains_kind ks kind

-- `kind in required_evidence`, after the loop of `request_approval`.
pub requires : List PolicyViolation → List PolicyRule → EvidenceKind → Bool
requires violations [] kind = false
requires violations (rule ∷ rules) kind =
    names violations rule.rule_id && contains_kind rule.required_evidence kind
    || requires violations rules kind

-- `ttl_seconds`, from its value before the loop to its value after it.
pub shortest : Option ℕ → Option ℕ → Option ℕ
shortest none t = t
shortest (some s) none = some s
shortest (some s) (some t) = if ltb t s then some t else some s

pub approval_ttl : List PolicyViolation → Option ℕ → List PolicyRule → Option ℕ
approval_ttl violations ttl [] = ttl
approval_ttl violations ttl (rule ∷ rules) =
    approval_ttl violations
      (if names violations rule.rule_id then shortest ttl rule.ttl_seconds else ttl) rules

-- `timedelta(seconds=ttl_seconds) if ttl_seconds else self.settings.default_approval_ttl`.
pub or_default : Option ℕ → ℕ → ℕ
or_default none default = default
or_default (some seconds) default = if seconds == 0 then default else seconds

pub kept : (EvidenceKind → Bool) → List EvidenceKind → List EvidenceKind
kept p [] = []
kept p (kind ∷ kinds) = let rest = kept p kinds in if p kind then kind ∷ rest else rest

-- The kinds in the order of their values, by which the set is sorted.
abbrev pub sorted_kinds : List EvidenceKind
sorted_kinds = approval_token ∷ audit_log ∷ justification ∷ mfa_challenge ∷ ticket_reference ∷ []

pub new_request : ℕ → PolicyContext → PolicyDecision → PolicyEngine → ApprovalRequest
new_request now context decision e =
    let rules = list_rules (some context.resource.resource_type) e.rules in
    record {
      request_id = e.drawn;
      subject = context.subject;
      resource = context.resource;
      action = context.action;
      required_evidence = kept (requires decision.violations rules) sorted_kinds;
      ttl =
          or_default (approval_ttl decision.violations none rules) e.settings.default_approval_ttl;
      status = pending;
      created_at = now;
    }

pub request_approval : ℕ → PolicyContext → PolicyEngine → Result ApprovalRequest × PolicyEngine
request_approval now context e =
    let (decision, e') = evaluate context e in
    let approval = new_request now context decision e' in
    if not (same_outcome decision.outcome require_approval)
    then (raise (not_require_approval decision.outcome), e')
    else (
      ok approval,
      record e' { requests = insert e'.drawn approval e'.requests; drawn = e'.drawn + 1 },
    )

pub is_pending : ApprovalStatus → Bool
is_pending pending = true
is_pending approved = false
is_pending denied = false
is_pending expired = false

-- `set(request.required_evidence) - provided_kinds`.
pub missing : ApprovalRequest → List EvidenceItem → List EvidenceKind
missing request evidence = kept (λ kind. not (provided evidence kind)) request.required_evidence

pub new_token : ℕ → ℕ → String → List EvidenceItem → ApprovalRequest → ℕ → ℕ → ApprovalToken
new_token issued stamped granted_by evidence request request_id token_id = record {
  token_id = token_id;
  request_id = request_id;
  granted_by = granted_by;
  granted_at = stamped;
  expires_at = issued + request.ttl;
  evidence = evidence;
}

pub grant :
    ℕ
    → ℕ
    → ℕ
    → ℕ
    → String
    → List EvidenceItem
    → Option ApprovalRequest
    → PolicyEngine
    → Result ApprovalToken × PolicyEngine
grant checked issued stamped request_id granted_by evidence none e = (raise request_not_found, e)
grant checked issued stamped request_id granted_by evidence (some request) e =
    let token = new_token issued stamped granted_by evidence request request_id e.drawn in
    if not (is_pending request.status)
    then (raise (request_not_pending request.status), e)
    else if ltb (request.created_at + request.ttl) checked
    then (raise request_expired, e)
    else if e.settings.enforce_evidence && not (is_empty (missing request evidence))
    then (raise (evidence_missing (missing request evidence)), e)
    else (ok token, record e { tokens = insert e.drawn token e.tokens; drawn = e.drawn + 1 })

-- The clock reads `checked` for `request.expired`, `issued` for the end of the token, and `stamped`
-- for its `granted_at`.
pub grant_approval :
    ℕ → ℕ → ℕ → ℕ → String → List EvidenceItem → PolicyEngine → Result ApprovalToken × PolicyEngine
grant_approval checked issued stamped request_id granted_by evidence e =
    grant checked issued stamped request_id granted_by evidence (lookup request_id e.requests) e

pub valid : ℕ → Option ApprovalToken → Result ApprovalToken
valid now none = raise token_not_found
valid now (some token) = if not (ltb now token.expires_at) then raise token_expired else ok token

pub validate_token : ℕ → ℕ → PolicyEngine → Result ApprovalToken
validate_token now token_id e = valid now (lookup token_id e.tokens)

-- The identifier is that of one of the rules.
pub known : List PolicyRule → String → Bool
known [] id = false
known (rule ∷ rules) id = str_eq rule.rule_id id || known rules id

-- `len(ids) != len(set(ids))`.
pub repeats : List PolicyRule → Bool
repeats [] = false
repeats (rule ∷ rules) = known rules rule.rule_id || repeats rules

-- The loop of `load_pack`; `existing` was listed before it.
pub load_rules : List PolicyRule → List PolicyRule → PolicyEngine → Result (Unit {0}) × PolicyEngine
load_rules existing [] e = (ok tt, e)
load_rules existing (rule ∷ rules) e =
    let rest = load_rules existing rules (add_rule rule e) in
    if known existing rule.rule_id then (raise (rule_conflicts rule.rule_id), e) else rest

pub load_pack : PolicyPack → PolicyEngine → Result (Unit {0}) × PolicyEngine
load_pack pack e =
    if is_empty pack.rules
    then (raise pack_empty, e)
    else if repeats pack.rules
    then (raise pack_has_duplicates, e)
    else load_rules (list_rules none e.rules) pack.rules e
