-- ===== src/ModelRouter/Cheapest.antt =====
-- What `ModelRouter.route` of src/electripy/ai/model_router/services.py selects.
use electripy_ai.Prelude.{
  ℕ, ◌<◌, ◌≡◌, refl, sym, ap, ◌∙◌, subst, String, Bool, true, false, List, [], ◌∷◌, ltb, by_cases,
  arith, ◌⊎◌, inl, inr, length, map, if◌then◌else◌,
}
use electripy_ai.ModelRouter.{
  ModelProfile, RoutingRule, cost_order, satisfying, narrow_candidates, insert_model, sort_models,
  arranged, models_after, Routed, decision, no_matching_model, first_candidate, route,
}

abbrev pub cost : ModelProfile → ℕ
cost m = cost_order m.cost_tier

-- A model satisfies all the rules.
abbrev pub satisfies : List RoutingRule → ModelProfile → Bool
satisfies [] m = true
satisfies (rule ∷ rules) m = if rule.predicate m then satisfies rules m else false

-- The models that satisfy all the rules, in their order.
abbrev pub eligible : List RoutingRule → List ModelProfile → List ModelProfile
eligible rules models = satisfying (satisfies rules) models

-- The first of the cheapest.
abbrev pub first_cheapest : ModelProfile → List ModelProfile → ModelProfile
first_cheapest m [] = m
first_cheapest m (x ∷ xs) =
    let best = first_cheapest x xs in if ltb (cost best) (cost m) then best else m

satisfying_all : (models : List ModelProfile) → satisfying (λ m. true) models ≡ models
unfolding satisfying
satisfying_all [] = refl
satisfying_all (m ∷ ms) = ap (λ rest. m ∷ rest) (satisfying_all ms)

-- One rule after the others is all of them at once.
eligible-cons :
    (rule : RoutingRule) (rules : List RoutingRule) (models : List ModelProfile)
    → eligible rules (satisfying rule.predicate models) ≡ eligible (rule ∷ rules) models
unfolding satisfying
eligible-cons rule rules [] = refl
eligible-cons rule rules (m ∷ ms) = ground (arith, eligible-cons rule rules ms)

-- What the rules leave.
Narrowed : List RoutingRule → List ModelProfile → String ⊎ List ModelProfile → Type 0
Narrowed rules models (inl name) = eligible rules models ≡ []
Narrowed rules models (inr candidates) =
    (candidates ≡ eligible rules models) × (0 < length candidates)

widened :
    (rule : RoutingRule) (rules : List RoutingRule) (models left : List ModelProfile)
    → satisfying rule.predicate models ≡ left
    → (r : String ⊎ List ModelProfile) → Narrowed rules left r
    → Narrowed (rule ∷ rules) models r
unfolding Narrowed
widened rule rules models left e (inl name) h =
    sym (eligible-cons rule rules models) ∙ ap (eligible rules) e ∙ h
widened rule rules models left e (inr candidates) h =
    (h.0 ∙ sym (ap (eligible rules) e) ∙ eligible-cons rule rules models, h.1)

narrow_candidates-Narrowed :
    (rules : List RoutingRule) (models : List ModelProfile)
    → 0 < length models
    → Narrowed rules models (narrow_candidates rules models)
unfolding Narrowed narrow_candidates satisfying
narrow_candidates-Narrowed [] models h = (sym (satisfying_all models), h)
narrow_candidates-Narrowed (rule ∷ rules) models h =
    let go : (left : List ModelProfile)
        → satisfying rule.predicate models ≡ left
        → Narrowed (rule ∷ rules) models (elim left as (λ _. String ⊎ List ModelProfile) [
          | [] ↦ inl rule.name
          | m ∷ ms ↦ narrow_candidates rules (m ∷ ms)
        ]) =
      elim [
        | [] ↦ λ e. sym (eligible-cons rule rules models) ∙ ap (eligible rules) e
        | m ∷ ms ↦ λ e.
            widened rule rules models (m ∷ ms) e (narrow_candidates rules (m ∷ ms))
              (narrow_candidates-Narrowed rules (m ∷ ms) (omega arith))
      ] in
    go (satisfying rule.predicate models) refl

sort_models-first :
    (m : ModelProfile) (ms : List ModelProfile)
    → (rest : List ModelProfile) × (sort_models (m ∷ ms) ≡ first_cheapest m ms ∷ rest)
unfolding sort_models insert_model
sort_models-first m [] = ([], refl)
sort_models-first m (x ∷ xs) =
    let (rest, e) = sort_models-first x xs in
    let best = first_cheapest x xs in
    by_cases
      (λ r. (rest' : List ModelProfile) × (insert_model m (sort_models (x ∷ xs)) ≡ r ∷ rest'))
      (ltb (cost best) (cost m))
      (λ less. (insert_model m rest, ap (insert_model m) e ∙ ground (arith, less)))
      (λ more. (best ∷ rest, ap (insert_model m) e ∙ ground (arith, more)))

-- What `route` is to come to, by the eligible models.
abbrev pub Selected : List RoutingRule → Bool → ℕ → List ModelProfile → Routed → Type 0
Selected rules prefer_cheapest considered [] routed =
    (name : String) × (routed ≡ no_matching_model name)
Selected rules prefer_cheapest considered (m ∷ ms) routed =
    routed
    ≡ decision (record {
      selected = if prefer_cheapest then first_cheapest m ms else m;
      matched_rules = map (λ (rule : RoutingRule). rule.name) rules;
      candidates_considered = considered;
    })

first_candidate-Selected :
    (rules : List RoutingRule) (prefer_cheapest : Bool) (considered : ℕ)
    (candidates : List ModelProfile)
    → 0 < length candidates
    → Selected rules prefer_cheapest considered candidates
        (first_candidate rules considered (arranged prefer_cheapest candidates))
unfolding first_candidate arranged
first_candidate-Selected rules prefer_cheapest considered [] h = absurd (omega (arith, h))
first_candidate-Selected rules false considered (m ∷ ms) h = refl
first_candidate-Selected rules true considered (m ∷ ms) h =
    let (rest, e) = sort_models-first m ms in ap (first_candidate rules considered) e

-- With at least one model: where no model satisfies all the rules, `route` raises `NoMatchingModelError`;
-- else it selects the first of these models or, where it is to prefer the cheapest, the first of the
-- cheapest among them.
pub route_selects :
    (rules : List RoutingRule) (prefer_cheapest : Bool) (models : List ModelProfile)
    → 0 < length models
    → Selected rules prefer_cheapest
        (length models)
        (eligible rules models)
        (route rules prefer_cheapest models).0
unfolding route Narrowed
route_selects rules prefer_cheapest models h =
    let go : (r : String ⊎ List ModelProfile)
        → Narrowed rules models r
        → Selected rules prefer_cheapest (length models) (eligible rules models)
            (elim r as (λ _. Routed × List ModelProfile) [
              | inl name ↦ (no_matching_model name, models)
              | inr candidates ↦ (
                first_candidate rules (length models) (arranged prefer_cheapest candidates),
                models_after rules prefer_cheapest models,
              )
            ]).0 =
      elim [
        | inl name ↦ λ none.
            subst (λ ms. Selected rules prefer_cheapest (length models) ms (no_matching_model name))
              (sym none) (name, refl)
        | inr candidates ↦ λ left.
            subst
              (λ ms.
                Selected rules prefer_cheapest (length models) ms
                  (first_candidate rules (length models) (arranged prefer_cheapest candidates)))
              left.0
              (first_candidate-Selected rules prefer_cheapest (length models) candidates left.1)
      ] in
    go (narrow_candidates rules models) (narrow_candidates-Narrowed rules models h)
