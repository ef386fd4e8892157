-- ===== src/WorkloadRouter/Domain.antt =====
-- The records of src/electripy/ai/workload_router/domain.py, over a type of floats. A set of texts is a
-- list of them. The summary of the policy, a text of an explanation, is left out.
use electripy_ai.Prelude.{ℕ, String, Bool, Option, none, some, List, if◌then◌else◌, ◌||◌}

-- Python's floats: `lt` and `le` are the comparisons, `literal` reads a number of the program, `fixed`
-- is the format `.4f` and `show` the format without a specification.
pub record Floats (F : Type 0) : Type 0 where
  pub add : F → F → F
  pub sub : F → F → F
  pub mul : F → F → F
  pub div : F → F → F
  pub lt : F → F → Bool
  pub le : F → F → Bool
  pub of_int : ℕ → F
  pub literal : String → F
  pub fixed : F → String
  pub show : F → String

pub data WorkloadType : Type 0 where
  chat extraction classification reranking summarization tool_use realtime : WorkloadType
  embedding long_context structured_output code_generation : WorkloadType

pub record CapabilityProfile : Type 0 where
  pub structured_output : Bool
  pub tool_use : Bool
  pub streaming : Bool
  pub vision : Bool
  pub reasoning : Bool
  pub code_execution : Bool
  pub workload_types : List WorkloadType

pub record ContextWindowProfile : Type 0 where
  pub max_input_tokens : ℕ
  pub max_output_tokens : ℕ

module _ (F : Type 0) where
  pub record CostProfile : Type 0 where
    pub cost_per_1k_input : F
    pub cost_per_1k_output : F

  pub record LatencyProfile : Type 0 where
    pub median_ms : F
    pub p99_ms : F

  pub record ReliabilityProfile : Type 0 where
    pub availability : F
    pub healthy : Bool

  pub record CandidateModel : Type 0 where
    pub model_id : String
    pub provider : String
    pub capabilities : CapabilityProfile
    pub cost : CostProfile
    pub latency : LatencyProfile
    pub reliability : ReliabilityProfile
    pub context_window : ContextWindowProfile
    pub tags : List String

  pub record RoutingConstraint : Type 0 where
    pub name : String
    pub predicate : CandidateModel → Bool

  pub record ScoringWeights : Type 0 where
    pub cost : F
    pub latency : F
    pub reliability : F
    pub context_window : F

  pub record RoutingPolicy : Type 0 where
    pub constraints : List RoutingConstraint
    pub weights : ScoringWeights
    pub allowed_providers : List String
    pub denied_providers : List String
    pub denied_model_families : List String
    pub max_cost_per_1k : Option F
    pub max_latency_ms : Option F
    pub min_context_tokens : Option ℕ
    pub required_capabilities : List String
    pub preferred_providers : List String
    pub min_fallbacks : ℕ

  pub record RoutingRequest : Type 0 where
    pub workload_type : WorkloadType
    pub policy : RoutingPolicy
    pub estimated_input_tokens : Option ℕ

  pub record DisqualifiedCandidate : Type 0 where
    pub candidate : CandidateModel
    pub reason : String

  pub record CandidateScore : Type 0 where
    pub candidate : CandidateModel
    pub total_score : F
    pub cost_score : F
    pub latency_score : F
    pub reliability_score : F
    pub context_score : F

  pub record RouteExplanation : Type 0 where
    pub selected_model_id : String
    pub scores : List CandidateScore
    pub disqualified : List DisqualifiedCandidate

  pub record FallbackPlan : Type 0 where
    pub candidates : List CandidateModel

  pub record RoutingDecision : Type 0 where
    pub selected : CandidateModel
    pub fallback_plan : FallbackPlan
    pub explanation : RouteExplanation
    pub request : RoutingRequest

module _ {F : Type 0} (floats : Floats F) where
  unfoldable pub blended_cost_per_1k : CostProfile F → F
  blended_cost_per_1k c =
      floats.div (floats.add c.cost_per_1k_input c.cost_per_1k_output) (floats.literal "2.0")

  -- `__post_init__`: a `ValueError` is `none`.
  pub new_weights : F → F → F → F → Option (ScoringWeights F)
  new_weights cost latency reliability context_window =
      let negative = λ (x : F). floats.lt x (floats.of_int 0) in
      if negative cost || (negative latency || (negative reliability || negative context_window))
      then none
      else some (record {
        cost = cost;
        latency = latency;
        reliability = reliability;
        context_window = context_window;
      })
