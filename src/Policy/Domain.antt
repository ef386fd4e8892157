-- ===== src/Policy/Domain.antt =====
-- The data of src/electripy/ai/policy/domain.py. Times and durations are natural numbers of one
-- unit, and identifiers that `uuid4` draws are numbers: the n-th draw is n, so that draws differ.
-- `PolicyDecision.evaluated_at`, which no code reads, is left out.
use electripy_ai.Prelude.{ℕ, String, Bool, List, Option, ◌==◌}

pub data DecisionOutcome : Type 0 where
  allow deny redact require_approval escalate : DecisionOutcome

pub data RulePriority : Type 0 where
  low medium high critical : RulePriority

pub data EvidenceKind : Type 0 where
  justification ticket_reference approval_token mfa_challenge audit_log : EvidenceKind

pub data ApprovalStatus : Type 0 where
  pending approved denied expired : ApprovalStatus

pub data EscalationLevel : Type 0 where
  team_lead manager security executive : EscalationLevel

abbrev pub Attributes : Type 0
Attributes = List (String × String)

pub record PolicySubject : Type 0 where
  pub actor_id : String
  pub roles : List String
  pub teams : List String
  pub attributes : Attributes

pub record PolicyResource : Type 0 where
  pub resource_type : String
  pub resource_id : String
  pub attributes : Attributes

pub record PolicyAction : Type 0 where
  pub action_type : String
  pub parameters : Attributes

pub record EvidenceItem : Type 0 where
  pub kind : EvidenceKind
  pub value : String
  pub provided_at : ℕ

pub record PolicyContext : Type 0 where
  pub subject : PolicySubject
  pub resource : PolicyResource
  pub action : PolicyAction
  pub evidence : List EvidenceItem
  pub request_id : String
  pub tags : Attributes
  pub timestamp : ℕ

pub record RedactionDirective : Type 0 where
  pub field_path : String
  pub replacement : String

pub record EscalationDirective : Type 0 where
  pub level : EscalationLevel
  pub reason : String
  pub notify_channels : List String

pub record PolicyRule : Type 0 where
  pub rule_id : String
  pub description : String
  pub priority : RulePriority
  pub outcome : DecisionOutcome
  pub resource_types : List String
  pub action_types : List String
  pub required_roles : List String
  pub required_evidence : List EvidenceKind
  pub redaction : Option RedactionDirective
  pub escalation : Option EscalationDirective
  pub ttl_seconds : Option ℕ
  pub enabled : Bool

pub record PolicyPack : Type 0 where
  pub pack_id : String
  pub version : String
  pub rules : List PolicyRule
  pub description : String

pub record DecisionReason : Type 0 where
  pub rule_id : String
  pub message : String

pub record PolicyViolation : Type 0 where
  pub rule_id : String
  pub priority : RulePriority
  pub message : String

pub record PolicyDecision : Type 0 where
  pub outcome : DecisionOutcome
  pub violations : List PolicyViolation
  pub reasons : List DecisionReason
  pub redactions : List RedactionDirective
  pub escalation : Option EscalationDirective
  pub policy_version : String
  pub request_id : String

pub record ApprovalRequest : Type 0 where
  pub request_id : ℕ
  pub subject : PolicySubject
  pub resource : PolicyResource
  pub action : PolicyAction
  pub required_evidence : List EvidenceKind
  pub ttl : ℕ
  pub status : ApprovalStatus
  pub created_at : ℕ

pub record ApprovalToken : Type 0 where
  pub token_id : ℕ
  pub request_id : ℕ
  pub granted_by : String
  pub granted_at : ℕ
  pub expires_at : ℕ
  pub evidence : List EvidenceItem

-- `==` on the members of the enumerations, by their place.
abbrev outcome_place : DecisionOutcome → ℕ
outcome_place allow = 0
outcome_place deny = 1
outcome_place redact = 2
outcome_place require_approval = 3
outcome_place escalate = 4

abbrev pub same_outcome : DecisionOutcome → DecisionOutcome → Bool
same_outcome a b = outcome_place a == outcome_place b

abbrev kind_place : EvidenceKind → ℕ
kind_place justification = 0
kind_place ticket_reference = 1
kind_place approval_token = 2
kind_place mfa_challenge = 3
kind_place audit_log = 4

abbrev pub same_kind : EvidenceKind → EvidenceKind → Bool
same_kind a b = kind_place a == kind_place b
