-- ===== src/ModelRouter/Tests.antt =====
-- Decisions of the router of src/electripy/ai/model_router/services.py.
use electripy_ai.Prelude.{◌≡◌, refl, String, Bool, true, false, List, [], ◌∷◌, arith, map}
use electripy_ai.ModelRouter.{
  CostTier, low, high, free, ModelProfile, RoutingRule, decision, cost_order, satisfying,
  narrow_candidates, insert_model, sort_models, arranged, models_after, route,
}
use electripy_ai.ModelRouter.Cheapest.{eligible, Selected, route_selects}

abbrev model : String → CostTier → Bool → ModelProfile
model model_id tier vision = record {
  model_id = model_id;
  provider = "p";
  cost_tier = tier;
  max_context_tokens = 4096;
  supports_structured_output = false;
  supports_vision = vision;
  tags = [];
}

abbrev models : List ModelProfile
models = model "a" high true ∷ model "b" low true ∷ model "c" free false ∷ []

abbrev sees : RoutingRule
sees = record { name = "vision"; predicate = λ m. m.supports_vision }

model_ids : List ModelProfile → List String
model_ids ms = map (λ (m : ModelProfile). m.model_id) ms

-- A decision without rules leaves the router's models sorted, so that the first one is another.
sorted_run : model_ids (route [] true models).1 ≡ "c" ∷ "b" ∷ "a" ∷ []
unfolding model_ids route narrow_candidates arranged models_after sort_models insert_model
    cost_order
sorted_run = refl

route_selects_example :
    Selected (sees ∷ []) true 3 (eligible (sees ∷ []) models) (route (sees ∷ []) true models).0
route_selects_example = route_selects (sees ∷ []) true models (omega arith)

-- The cheaper of the two that see.
cheaper_run :
    (route (sees ∷ []) true models).0
    ≡ decision (record {
      selected = model "b" low true;
      matched_rules = "vision" ∷ [];
      candidates_considered = 3;
    })
unfolding satisfying cost_order
cheaper_run = route_selects (sees ∷ []) true models (omega arith)
