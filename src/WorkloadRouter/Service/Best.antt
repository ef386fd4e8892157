-- ===== src/WorkloadRouter/Service/Best.antt =====
-- What a routing decision of src/electripy/ai/workload_router/services.py promises.
use mathlib.Core.List.{Perm, filter}
use electripy_ai.Prelude.{
  ℕ, ◌≤◌, ◌<◌, ◌≡◌, ◌↔◌, refl, ap, ◌∙◌, sym, subst, String, Bool, List, [], ◌∷◌, map, length,
}
use electripy_ai.WorkloadRouter.Domain.{
  Floats, CandidateModel, CandidateScore, RoutingPolicy, RoutingRequest, RoutingDecision,
  DisqualifiedCandidate,
}
use electripy_ai.WorkloadRouter.Scoring.{score_candidate, score_and_rank, sort_scores}
use electripy_ai.WorkloadRouter.Scoring.Ranked.{
  Comparable, Ranked, sort_scores-Perm, length-sort_scores, sort_scores-Ranked,
}
use electripy_ai.WorkloadRouter.Constraints.{apply_constraints}
use electripy_ai.WorkloadRouter.Service.{Routed, ok, raise, decide, chosen, told, route}
use electripy_ai.WorkloadRouter.Service.Decisions.{
  eligible?, apply_constraints-filter, raise≢ok, ok-injective, length-map, decide-Follows,
  decide-returns,
}

-- The statement of a decision: its scores are those of the eligible candidates of the catalog, each as
-- often as it is there, ranked from the best to the worst; the selected candidate and the fallbacks are
-- the ranked ones in this order; and there are as many fallbacks as asked for.
pub record Best {F : Type 0} (floats : Floats F) (quote : String → String) (show_int : ℕ → String)
    (is_healthy : String → String → Bool) (catalog : List (CandidateModel F))
    (policy : RoutingPolicy F) (d : RoutingDecision F) : Type 0 where
  pub complete : Perm d.explanation.scores (
      map
        (score_candidate floats policy.weights policy.preferred_providers)
        (filter (eligible? floats quote show_int is_healthy policy) catalog))
  pub ranked : Ranked floats d.explanation.scores
  pub leads :
      map (λ (s : CandidateScore F). s.candidate) d.explanation.scores
      ≡ d.selected ∷ d.fallback_plan.candidates
  pub enough : policy.min_fallbacks ≤ length d.fallback_plan.candidates

module _ {F W : Type 0} (floats : Floats F) (quote : String → String) (show_int : ℕ → String)
    (is_healthy : String → String → Bool) (on_routing_decision : RoutingDecision F → W → W) where
  told-ok :
      (r : Routed F (RoutingDecision F)) (w w1 : W) (d : RoutingDecision F)
      → told floats quote show_int is_healthy on_routing_decision r w ≡ (ok d, w1)
      → (r ≡ ok d) × (w1 ≡ on_routing_decision d w)
  unfolding told
  told-ok (ok d') w w1 d h =
      let same = ap (λ x. x.0) h in
      (same, sym (ap (λ x. x.1) h) ∙ ap (λ x. on_routing_decision x w) (ok-injective same))
  told-ok (raise e) w w1 d h = absurd (raise≢ok (ap (λ x. x.0) h))

  told-0 :
      (r : Routed F (RoutingDecision F)) (w : W)
      → (told floats quote show_int is_healthy on_routing_decision r w).0 ≡ r
  unfolding told
  told-0 (ok d) w = refl
  told-0 (raise e) w = refl

  -- The ranking of the candidates that are eligible.
  abbrev ranking : List (CandidateModel F) → RoutingPolicy F → List (CandidateScore F)
  ranking catalog policy =
      score_and_rank floats (filter (eligible? floats quote show_int is_healthy policy) catalog)
        policy

  abbrev disqualified_of :
      List (CandidateModel F) → RoutingPolicy F → List (DisqualifiedCandidate F)
  disqualified_of catalog policy =
      (apply_constraints floats quote show_int is_healthy policy catalog).1

  chosen-decide :
      (catalog : List (CandidateModel F)) (request : RoutingRequest F) (d : RoutingDecision F)
      → (chosen floats quote show_int is_healthy on_routing_decision catalog request ≡ ok d) ↔ (
          decide request (disqualified_of catalog request.policy) (ranking catalog request.policy)
          ≡ ok d)
  unfolding chosen decide score_and_rank sort_scores
  chosen-decide [] request d = (λ h. absurd (raise≢ok h), λ h. absurd (raise≢ok h))
  chosen-decide (c ∷ cs) request d =
      let policy = request.policy in
      let same =
        ap
          (λ eligible.
            decide request (disqualified_of (c ∷ cs) policy)
              (score_and_rank floats eligible policy))
          (apply_constraints-filter floats quote show_int is_healthy policy (c ∷ cs)) in
      (λ h. sym same ∙ h, λ h. same ∙ h)

  length-ranking :
      (catalog : List (CandidateModel F)) (policy : RoutingPolicy F)
      → length (ranking catalog policy)
        ≡ length (filter (eligible? floats quote show_int is_healthy policy) catalog)
  unfolding score_and_rank
  length-ranking catalog policy =
      length-sort_scores floats _
      ∙ length-map (score_candidate floats policy.weights policy.preferred_providers) _

-- With floats that `<` orders: a decision that `route` returns has scored exactly the eligible
-- candidates of the catalog and ranked them from the best to the worst; the selected candidate leads
-- the ranking, the fallbacks follow in its order, as many as the policy asks for at least; and the
-- telemetry hook was told of it.
pub route-Best :
    {F W : Type 0} (floats : Floats F) (quote : String → String) (show_int : ℕ → String)
    (is_healthy : String → String → Bool) (on_routing_decision : RoutingDecision F → W → W)
    (catalog : List (CandidateModel F)) (request : RoutingRequest F) (w w1 : W)
    (d : RoutingDecision F)
    → Comparable floats
    → route floats quote show_int is_healthy on_routing_decision catalog request w ≡ (ok d, w1)
    → Best floats quote show_int is_healthy catalog request.policy d
      × (w1 ≡ on_routing_decision d w)
unfolding route score_and_rank
route-Best floats quote show_int is_healthy on_routing_decision catalog request w w1 d o h =
    let policy = request.policy in
    let scores = ranking floats quote show_int is_healthy on_routing_decision catalog policy in
    let (returned, hooked) =
      told-ok floats quote show_int is_healthy on_routing_decision _ w w1 d h in
    let decided' =
      (chosen-decide floats quote show_int is_healthy on_routing_decision catalog request d).0
        returned in
    let f = decide-Follows request _ scores d decided' in
    (
      record {
        complete =
            subst
              (λ x. Perm x (
                map (score_candidate floats policy.weights policy.preferred_providers)
                  (filter (eligible? floats quote show_int is_healthy policy) catalog)))
              (sym f.same) (sort_scores-Perm floats _);
        ranked = subst (Ranked floats) (sym f.same) (sort_scores-Ranked floats o _);
        leads = ap (map (λ s. s.candidate)) f.same ∙ f.leads;
        enough = f.enough;
      },
      hooked,
    )

-- `route` returns a decision exactly if more candidates of the catalog are eligible than the policy asks
-- for fallbacks.
pub route_returns :
    {F W : Type 0} (floats : Floats F) (quote : String → String) (show_int : ℕ → String)
    (is_healthy : String → String → Bool) (on_routing_decision : RoutingDecision F → W → W)
    (catalog : List (CandidateModel F)) (request : RoutingRequest F) (w : W)
    → ((d : RoutingDecision F) × ((route floats quote show_int is_healthy on_routing_decision
            catalog request w).0
          ≡ ok d))
      ↔ (request.policy.min_fallbacks
          < length (filter (eligible? floats quote show_int is_healthy request.policy) catalog))
unfolding route
route_returns floats quote show_int is_healthy on_routing_decision catalog request w =
    let hook = on_routing_decision in
    let found =
      told-0 floats quote show_int is_healthy hook
        (chosen floats quote show_int is_healthy hook catalog request) w in
    let r =
      decide-returns request
        (disqualified_of floats quote show_int is_healthy hook catalog request.policy)
        (ranking floats quote show_int is_healthy hook catalog request.policy) in
    let n = length-ranking floats quote show_int is_healthy hook catalog request.policy in
    let c = chosen-decide floats quote show_int is_healthy hook catalog request in
    (
      λ h. subst (λ k. request.policy.min_fallbacks < k) n (r.0 (h.0, (c h.0).0 (sym found ∙ h.1))),
      λ h.
          let x = r.1 (subst (λ k. request.policy.min_fallbacks < k) (sym n) h) in
          (x.0, found ∙ (c x.0).1 x.1),
    )
