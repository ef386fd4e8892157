-- ===== src/WorkloadRouter/Service.antt =====
-- `RoutingService` of src/electripy/ai/workload_router/services.py. The catalog is the list of its
-- candidates, `is_healthy` the health port; the telemetry hook acts on a world of the caller's choice.
-- `max(0, n)` of a negative `min_fallbacks` is 0 here. Log messages are left out.
pub mod Decisions
pub mod Best
use text.Mathlib.Text.{find?}
use electripy_ai.Prelude.{
  ℕ, ◌+◌, String, Bool, true, false, ◌&&◌, Option, none, some, List, [], ◌∷◌, map, ltb, ◌==◌,
  if◌then◌else◌, take, length,
}
use electripy_ai.WorkloadRouter.Domain.{
  Floats, WorkloadType, CandidateModel, RoutingPolicy, RoutingRequest, DisqualifiedCandidate,
  CandidateScore, RouteExplanation, RoutingDecision,
}
use electripy_ai.WorkloadRouter.Scoring.{score_and_rank}
use electripy_ai.WorkloadRouter.Constraints.{apply_constraints}

-- `no_candidate` carries the candidates whose reasons its message lists.
pub data RoutingError (F : Type 0) : Type 0 where
  empty_catalog : RoutingError F
  not_enough_fallbacks : ℕ → ℕ → RoutingError F
  budget_exceeded : ℕ → RoutingError F
  no_candidate : List (DisqualifiedCandidate F) → RoutingError F

pub data Routed (F : Type 0) (A : Type 0) : Type 0 where
  ok : A → Routed F A
  raise : RoutingError F → Routed F A

-- `"exceeds budget" in reason`.
pub is_over_budget : String → Bool
is_over_budget reason = elim (find? reason "exceeds budget") [ none ↦ false | some i ↦ true ]

pub count_over_budget : {F : Type 0} → List (DisqualifiedCandidate F) → ℕ
count_over_budget [] = 0
count_over_budget (d ∷ ds) =
    let later = count_over_budget ds in if is_over_budget d.reason then later + 1 else later

pub raise_no_candidate : {F : Type 0} → List (DisqualifiedCandidate F) → RoutingError F
raise_no_candidate disqualified =
    let n = count_over_budget disqualified in
    if ltb 0 n && (n == length disqualified)
    then budget_exceeded (length disqualified)
    else no_candidate (take 5 disqualified)

-- `RoutingPolicy()`.
pub default_policy : {F : Type 0} → Floats F → RoutingPolicy F
default_policy floats = record {
  constraints = [];
  weights = record {
    cost = floats.literal "1.0";
    latency = floats.literal "0.5";
    reliability = floats.literal "0.3";
    context_window = floats.literal "0.1";
  };
  allowed_providers = [];
  denied_providers = [];
  denied_model_families = [];
  max_cost_per_1k = none;
  max_latency_ms = none;
  min_context_tokens = none;
  required_capabilities = [];
  preferred_providers = [];
  min_fallbacks = 0;
}

module _ {F : Type 0} where
  unfoldable pub decision_of :
      RoutingRequest F
      → List (DisqualifiedCandidate F)
      → CandidateScore F
      → List (CandidateScore F)
      → RoutingDecision F
  decision_of request disqualified s rest = record {
    selected = s.candidate;
    fallback_plan = record { candidates = map (λ t. t.candidate) rest };
    explanation = record {
      selected_model_id = s.candidate.model_id;
      scores = s ∷ rest;
      disqualified = disqualified;
    };
    request = request;
  }

  -- No candidate is left exactly if the ranking is empty.
  unfoldable pub decide :
      RoutingRequest F
      → List (DisqualifiedCandidate F)
      → List (CandidateScore F)
      → Routed F (RoutingDecision F)
  decide request disqualified [] = raise (raise_no_candidate disqualified)
  decide request disqualified (s ∷ rest) =
      let least = request.policy.min_fallbacks in
      if ltb 0 least && ltb (length rest) least
      then raise (not_enough_fallbacks least (length rest))
      else ok (decision_of request disqualified s rest)

module _ {F W : Type 0} (floats : Floats F) (quote : String → String) (show_int : ℕ → String)
    (is_healthy : String → String → Bool) (on_routing_decision : RoutingDecision F → W → W) where
  unfoldable pub chosen : List (CandidateModel F) → RoutingRequest F → Routed F (RoutingDecision F)
  chosen [] request = raise empty_catalog
  chosen (c ∷ cs) request =
      let policy = request.policy in
      let (eligible, disqualified) =
        apply_constraints floats quote show_int is_healthy policy (c ∷ cs) in
      decide request disqualified (score_and_rank floats eligible policy)

  unfoldable pub told : Routed F (RoutingDecision F) → W → Routed F (RoutingDecision F) × W
  told (ok decision) w = (ok decision, on_routing_decision decision w)
  told (raise e) w = (raise e, w)

  unfoldable pub route :
      List (CandidateModel F) → RoutingRequest F → W → Routed F (RoutingDecision F) × W
  route catalog request w = told (chosen catalog request) w

  pub explanation_of : Routed F (RoutingDecision F) × W → Routed F (RouteExplanation F) × W
  explanation_of (ok decision, w) = (ok decision.explanation, w)
  explanation_of (raise e, w) = (raise e, w)

  pub explain : List (CandidateModel F) → RoutingRequest F → W → Routed F (RouteExplanation F) × W
  explain catalog request w = explanation_of (route catalog request w)

  pub request_for : WorkloadType → RoutingPolicy F → RoutingRequest F
  request_for workload_type policy = record {
    workload_type = workload_type;
    policy = policy;
    estimated_input_tokens = none;
  }

  pub route_by_workload :
      List (CandidateModel F)
      → WorkloadType
      → Option (RoutingPolicy F)
      → W
      → Routed F (RoutingDecision F) × W
  route_by_workload catalog workload_type none w =
      route catalog (request_for workload_type (default_policy floats)) w
  route_by_workload catalog workload_type (some policy) w =
      route catalog (request_for workload_type policy) w

  pub route_by_budget :
      List (CandidateModel F) → F → WorkloadType → W → Routed F (RoutingDecision F) × W
  route_by_budget catalog most workload_type w =
      let policy = record (default_policy floats) { max_cost_per_1k = some most } in
      route catalog (request_for workload_type policy) w

  pub route_by_latency :
      List (CandidateModel F) → F → WorkloadType → W → Routed F (RoutingDecision F) × W
  route_by_latency catalog most workload_type w =
      let policy = record (default_policy floats) { max_latency_ms = some most } in
      route catalog (request_for workload_type policy) w
