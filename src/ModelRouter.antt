-- ===== src/ModelRouter.antt =====
-- src/electripy/ai/model_router/ (domain.py, services.py). The router keeps its list of models, which a
-- decision without rules sorts in place: the list of candidates is then the router's own.
pub mod Cheapest
mod Tests
use text.Mathlib.Text.{◌==◌ as str_eq}
use electripy_ai.Prelude.{
  ℕ, String, Bool, true, false, Option, none, some, List, [], ◌∷◌, map, length, ltb, if◌then◌else◌,
  ◌⊎◌, inl, inr,
}

pub data CostTier : Type 0 where
  free low medium high premium : CostTier

pub record ModelProfile : Type 0 where
  pub model_id : String
  pub provider : String
  pub cost_tier : CostTier
  pub max_context_tokens : ℕ
  pub supports_structured_output : Bool
  pub supports_vision : Bool
  pub tags : List String

pub record RoutingRule : Type 0 where
  pub name : String
  pub predicate : ModelProfile → Bool

pub record RoutingDecision : Type 0 where
  pub selected : ModelProfile
  pub matched_rules : List String
  pub candidates_considered : ℕ

unfoldable pub cost_order : CostTier → ℕ
cost_order free = 0
cost_order low = 1
cost_order medium = 2
cost_order high = 3
cost_order premium = 4

-- `none` is the `ValueError` of a router without models.
unfoldable pub new_router : List ModelProfile → Option (List ModelProfile)
new_router [] = none
new_router (m ∷ ms) = some (m ∷ ms)

unfoldable pub satisfying : (ModelProfile → Bool) → List ModelProfile → List ModelProfile
satisfying predicate [] = []
satisfying predicate (m ∷ ms) =
    let rest = satisfying predicate ms in if predicate m then m ∷ rest else rest

-- The candidates after the rules, or the name of a rule that none of them satisfies.
unfoldable pub narrow_candidates : List RoutingRule → List ModelProfile → String ⊎ List ModelProfile
narrow_candidates [] candidates = inr candidates
narrow_candidates (rule ∷ rules) candidates = elim (satisfying rule.predicate candidates) [
  | [] ↦ inl rule.name
  | m ∷ ms ↦ narrow_candidates rules (m ∷ ms)
]

-- The sort is stable.
unfoldable pub insert_model : ModelProfile → List ModelProfile → List ModelProfile
insert_model m [] = m ∷ []
insert_model m (x ∷ xs) =
    let rest = insert_model m xs in
    if ltb (cost_order x.cost_tier) (cost_order m.cost_tier) then x ∷ rest else m ∷ x ∷ xs

unfoldable pub sort_models : List ModelProfile → List ModelProfile
sort_models [] = []
sort_models (m ∷ ms) = insert_model m (sort_models ms)

unfoldable pub arranged : Bool → List ModelProfile → List ModelProfile
arranged true candidates = sort_models candidates
arranged false candidates = candidates

-- The router's list after a decision: without rules the candidates are this list.
unfoldable pub models_after : List RoutingRule → Bool → List ModelProfile → List ModelProfile
models_after [] prefer_cheapest models = arranged prefer_cheapest models
models_after (rule ∷ rules) prefer_cheapest models = models

-- How `route` ends; `index_error` where there is no candidate to take, which a router that was made
-- has not.
pub data Routed : Type 0 where
  decision : RoutingDecision → Routed
  no_matching_model : String → Routed
  index_error : Routed

unfoldable pub first_candidate : List RoutingRule → ℕ → List ModelProfile → Routed
first_candidate rules considered [] = index_error
first_candidate rules considered (m ∷ ms) = decision (record {
  selected = m;
  matched_rules = map (λ (rule : RoutingRule). rule.name) rules;
  candidates_considered = considered;
})

unfoldable pub route : List RoutingRule → Bool → List ModelProfile → Routed × List ModelProfile
route rules prefer_cheapest models = elim (narrow_candidates rules models) [
  | inl name ↦ (no_matching_model name, models)
  | inr candidates ↦ (
    first_candidate rules (length models) (arranged prefer_cheapest candidates),
    models_after rules prefer_cheapest models,
  )
]

-- `min` takes the first of the least.
unfoldable pub least_of : ModelProfile → List ModelProfile → ModelProfile
least_of m [] = m
least_of m (x ∷ xs) =
    if ltb (cost_order x.cost_tier) (cost_order m.cost_tier) then least_of x xs else least_of m xs

unfoldable pub cheapest : List ModelProfile → Option ModelProfile
cheapest [] = none
cheapest (m ∷ ms) = some (least_of m ms)

unfoldable pub by_id : String → List ModelProfile → Option ModelProfile
by_id model_id [] = none
by_id model_id (m ∷ ms) =
    let later = by_id model_id ms in if str_eq m.model_id model_id then some m else later
