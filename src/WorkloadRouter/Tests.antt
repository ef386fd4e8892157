-- ===== src/WorkloadRouter/Tests.antt =====
-- Concrete routings of src/electripy/ai/workload_router/services.py, with whole numbers for floats.
use mathlib.Core.List.{filter}
use electripy_ai.Prelude.{
  ℕ, suc, ◌+◌, ◌-◌, ◌*◌, ◌/◌, ◌<◌, ◌≡◌, ◌↔◌, refl, String, Bool, true, false, none, some, List, [],
  ◌∷◌, ltb, leb, length, arith,
}
use electripy_ai.WorkloadRouter.Domain.{
  Floats, chat, CandidateModel, RoutingRequest, RoutingDecision, DisqualifiedCandidate,
  blended_cost_per_1k, CandidateScore,
}
use electripy_ai.WorkloadRouter.Scoring.{
  is_member, normalise, context_share, score_candidate, sort_scores, insert_score, score_and_rank,
}
use electripy_ai.WorkloadRouter.Scoring.Ranked.{Comparable}
use electripy_ai.WorkloadRouter.Constraints.{
  reason_if, first_of, is_empty, capability, is_lacking, missing_capability, denied_family,
  over_budget, too_slow, too_small, failed_constraint, check_candidate, sorted_out,
  apply_constraints,
}
use electripy_ai.WorkloadRouter.Service.{ok, decision_of, chosen, decide, told, route}
use electripy_ai.WorkloadRouter.Service.Decisions.{eligible?}
use electripy_ai.WorkloadRouter.Service.Best.{Best, route-Best, route_returns}

abbrev whole : Floats ℕ
whole = record {
  add = λ x y. x + y;
  sub = λ x y. x - y;
  mul = λ x y. x * y;
  div = λ x y. x / y;
  lt = λ x y. ltb x y;
  le = λ x y. leb x y;
  of_int = λ n. n;
  literal = λ s. 2;
  fixed = λ x. "1";
  show = λ x. "1";
}

abbrev model : String → ℕ → ℕ → CandidateModel ℕ
model name cost availability = record {
  model_id = name;
  provider = "p";
  capabilities = record {
    structured_output = false;
    tool_use = true;
    streaming = true;
    vision = false;
    reasoning = false;
    code_execution = false;
    workload_types = [];
  };
  cost = record { cost_per_1k_input = cost; cost_per_1k_output = cost };
  latency = record { median_ms = 1; p99_ms = 1 };
  reliability = record { availability = availability; healthy = true };
  context_window = record { max_input_tokens = 8; max_output_tokens = 8 };
  tags = [];
}

abbrev request : RoutingRequest ℕ
request = record {
  workload_type = chat;
  policy = record {
    constraints = [];
    weights = record { cost = 1; latency = 1; reliability = 1; context_window = 1 };
    allowed_providers = "q" ∷ "p" ∷ [];
    denied_providers = "r" ∷ [];
    denied_model_families = "old" ∷ [];
    max_cost_per_1k = some 5;
    max_latency_ms = none;
    min_context_tokens = some 8;
    required_capabilities = "tool_use" ∷ "unknown" ∷ [];
    preferred_providers = [];
    min_fallbacks = 1;
  };
  estimated_input_tokens = none;
}

-- The second is over the budget, the third of a denied family.
abbrev catalog : List (CandidateModel ℕ)
catalog = model "a" 2 3 ∷ model "b" 6 9 ∷ model "old-c" 2 9 ∷ model "d" 2 4 ∷ []

abbrev healthy : String → String → Bool
healthy model_id provider = true

abbrev hook : RoutingDecision ℕ → ℕ → ℕ
hook d w = suc w

whole-Comparable : Comparable whole
whole-Comparable = record {
  asymmetric = λ x y h. ground (arith, h);
  transitive = λ x y z h k. ground (arith, h, k);
}

abbrev quote : String → String
quote s = s

abbrev show_int : ℕ → String
show_int n = "n"

route_returns_example :
    ((d : RoutingDecision ℕ) × ((route whole quote show_int healthy hook catalog request 0).0
        ≡ ok d))
    ↔ (1 < length (filter (eligible? whole quote show_int healthy request.policy) catalog))
route_returns_example = route_returns whole quote show_int healthy hook catalog request 0

program : Unit {0}
unfolding blended_cost_per_1k is_member normalise context_share score_candidate insert_score
    sort_scores score_and_rank reason_if first_of is_empty capability is_lacking missing_capability
    denied_family over_budget too_slow too_small failed_constraint check_candidate sorted_out
    apply_constraints chosen decide told route decision_of
program = tt

abbrev scored : CandidateModel ℕ → CandidateScore ℕ
scored = score_candidate whole request.policy.weights []

abbrev catalog_disqualified : List (DisqualifiedCandidate ℕ)
catalog_disqualified =
    record { candidate = model "b" 6 9; reason = "cost $1/1k exceeds budget $1/1k" }
    ∷ record { candidate = model "old-c" 2 9; reason = "model family old is denied" }
    ∷ []

-- The last model is the most available.
abbrev decision : RoutingDecision ℕ
decision =
    decision_of request catalog_disqualified (scored (model "d" 2 4)) (scored (model "a" 2 3) ∷ [])

route_run : route whole quote show_int healthy hook catalog request 0 ≡ (ok decision, 1)
unfolding program
route_run = refl

route-Best_example :
    Best whole quote show_int healthy catalog request.policy decision × (1 ≡ hook decision 0)
route-Best_example =
    route-Best whole quote show_int healthy hook catalog request 0 1 decision whole-Comparable
      route_run
