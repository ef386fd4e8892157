-- ===== src/Policy/Samples.antt =====
-- A request and rules on which the tests run the policies of src/electripy/ai/policy.
use electripy_ai.Prelude.{String, none, true, List, [], ◌∷◌}
use electripy_ai.Policy.Domain.{
  DecisionOutcome, RulePriority, ticket_reference, PolicyContext, PolicyRule,
}

abbrev pub refund : PolicyContext
refund = record {
  subject = record { actor_id = "a"; roles = "agent" ∷ []; teams = []; attributes = [] };
  resource = record { resource_type = "invoice"; resource_id = "7"; attributes = [] };
  action = record { action_type = "refund"; parameters = [] };
  evidence = record { kind = ticket_reference; value = "T1"; provided_at = 3 } ∷ [];
  request_id = "r";
  tags = [];
  timestamp = 5;
}

abbrev pub rule : String → RulePriority → DecisionOutcome → List String → PolicyRule
rule id priority outcome roles = record {
  rule_id = id;
  description = "d";
  priority = priority;
  outcome = outcome;
  resource_types = "invoice" ∷ [];
  action_types = [];
  required_roles = roles;
  required_evidence = ticket_reference ∷ [];
  redaction = none;
  escalation = none;
  ttl_seconds = none;
  enabled = true;
}
