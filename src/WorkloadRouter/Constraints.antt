-- ===== src/WorkloadRouter/Constraints.antt =====
-- The hard constraints of src/electripy/ai/workload_router/services.py; `is_healthy` is the health port,
-- `quote` stands for the conversion `!r`.
mod Checks
pub mod Eligible
use Prim.Native.String.{◌++◌ as str_append}
use text.Mathlib.Text.{◌==◌ as str_eq, starts_with}
use electripy_ai.Prelude.{
  ℕ, String, Bool, true, false, not, ◌&&◌, Option, none, some, List, [], ◌∷◌, ltb, if◌then◌else◌,
}
use electripy_ai.WorkloadRouter.Domain.{
  Floats, CapabilityProfile, CandidateModel, RoutingConstraint, RoutingPolicy,
  DisqualifiedCandidate, blended_cost_per_1k,
}
use electripy_ai.WorkloadRouter.Scoring.{is_member}

unfoldable pub reason_if : Bool → String → Option String
reason_if true reason = some reason
reason_if false reason = none

-- The first reason that there is.
unfoldable pub first_of : Option String → Option String → Option String
first_of (some reason) next = some reason
first_of none next = next

unfoldable pub is_empty : List String → Bool
is_empty [] = true
is_empty (x ∷ xs) = false

-- The capability of a name, where `_CAPABILITY_FIELDS` has the name.
unfoldable pub capability : String → CapabilityProfile → Option Bool
capability name c =
    if str_eq name "structured_output"
    then some c.structured_output
    else if str_eq name "tool_use"
    then some c.tool_use
    else if str_eq name "streaming"
    then some c.streaming
    else if str_eq name "vision"
    then some c.vision
    else if str_eq name "reasoning"
    then some c.reasoning
    else if str_eq name "code_execution"
    then some c.code_execution
    else none

unfoldable pub is_lacking : Option Bool → Bool
is_lacking (some false) = true
is_lacking b = false

unfoldable pub missing_capability : CapabilityProfile → List String → Option String
missing_capability c [] = none
missing_capability c (name ∷ names) =
    first_of
      (reason_if (is_lacking (capability name c)) (str_append "missing required capability: " name))
      (missing_capability c names)

module _ {F : Type 0} (floats : Floats F) (quote : String → String) (show_int : ℕ → String) where
  unfoldable pub denied_family : String → List String → Option String
  denied_family model_id [] = none
  denied_family model_id (family ∷ families) =
      first_of
        (reason_if (starts_with model_id family)
          (str_append "model family " (str_append (quote family) " is denied")))
        (denied_family model_id families)

  unfoldable pub over_budget : CandidateModel F → Option F → Option String
  over_budget c none = none
  over_budget c (some most) =
      let cost = blended_cost_per_1k floats c.cost in
      reason_if (floats.lt most cost) (
        str_append "cost $" (
          str_append (floats.fixed cost)
            (str_append "/1k exceeds budget $" (str_append (floats.fixed most) "/1k"))))

  unfoldable pub too_slow : CandidateModel F → Option F → Option String
  too_slow c none = none
  too_slow c (some most) = reason_if (floats.lt most c.latency.median_ms) (
      str_append "median latency " (
        str_append (floats.show c.latency.median_ms)
          (str_append "ms exceeds SLO " (str_append (floats.show most) "ms"))))

  unfoldable pub too_small : CandidateModel F → Option ℕ → Option String
  too_small c none = none
  too_small c (some least) = reason_if (ltb c.context_window.max_input_tokens least) (
      str_append "context window " (
        str_append (show_int c.context_window.max_input_tokens)
          (str_append " < required " (show_int least))))

  unfoldable pub failed_constraint : CandidateModel F → List (RoutingConstraint F) → Option String
  failed_constraint c [] = none
  failed_constraint c (k ∷ ks) =
      first_of (reason_if (not (k.predicate c)) (str_append "failed constraint: " k.name))
        (failed_constraint c ks)

  module _ (is_healthy : String → String → Bool) (policy : RoutingPolicy F) where
    unfoldable pub check_candidate : CandidateModel F → Option String
    check_candidate c =
        let allowed = policy.allowed_providers in
        first_of (reason_if (not (is_healthy c.model_id c.provider)) "unhealthy") (
          first_of (reason_if (not c.reliability.healthy) "marked unhealthy in reliability profile")
            (first_of
              (reason_if (not (is_empty allowed) && not (is_member c.provider allowed))
                (str_append "provider " (str_append (quote c.provider) " not in allowed list")))
              (first_of
                (reason_if (is_member c.provider policy.denied_providers)
                  (str_append "provider " (str_append (quote c.provider) " is denied")))
                (first_of (denied_family c.model_id policy.denied_model_families) (
                  first_of (over_budget c policy.max_cost_per_1k) (
                    first_of (too_slow c policy.max_latency_ms) (
                      first_of (too_small c policy.min_context_tokens) (
                        first_of (missing_capability c.capabilities policy.required_capabilities)
                          (failed_constraint c policy.constraints)))))))))

    unfoldable pub sorted_out :
        CandidateModel F
        → Option String
        → List (CandidateModel F) × List (DisqualifiedCandidate F)
        → List (CandidateModel F) × List (DisqualifiedCandidate F)
    sorted_out c none (eligible, disqualified) = (c ∷ eligible, disqualified)
    sorted_out c (some reason) (eligible, disqualified) =
        (eligible, record { candidate = c; reason = reason } ∷ disqualified)

    unfoldable pub apply_constraints :
        List (CandidateModel F) → List (CandidateModel F) × List (DisqualifiedCandidate F)
    apply_constraints [] = ([], [])
    apply_constraints (c ∷ cs) = sorted_out c (check_candidate c) (apply_constraints cs)
