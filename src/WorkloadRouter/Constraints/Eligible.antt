-- ===== src/WorkloadRouter/Constraints/Eligible.antt =====
-- What the hard constraints of src/electripy/ai/workload_router/services.py let through.
use text.Mathlib.Text.{starts_with}
use electripy_ai.Prelude.{
  ℕ, ◌≤◌, ◌≡◌, ◌≢◌, ◌↔◌, ◌⊎◌, refl, String, Bool, true, false, none, some, [], All,
}
use electripy_ai.WorkloadRouter.Domain.{
  Floats, CandidateModel, RoutingConstraint, RoutingPolicy, blended_cost_per_1k,
}
use electripy_ai.WorkloadRouter.Scoring.{is_member}
use electripy_ai.WorkloadRouter.Constraints.Checks.{
  reason_if-none, is_member-false, not-false, is_lacking-false, not_allowed-false, ltb-false,
  ↔-trans, checks-All, checks_bound, first_of-right,
}
use electripy_ai.WorkloadRouter.Constraints.{
  capability, missing_capability, denied_family, over_budget, too_slow, too_small,
  failed_constraint, check_candidate,
}

-- The constraints, stated one by one.
pub record Eligible {F : Type 0} (floats : Floats F) (is_healthy : String → String → Bool)
    (policy : RoutingPolicy F) (c : CandidateModel F) : Type 0 where
  pub live : is_healthy c.model_id c.provider ≡ true
  pub healthy : c.reliability.healthy ≡ true
  pub allowed :
      (policy.allowed_providers ≡ []) ⊎ (is_member c.provider policy.allowed_providers ≡ true)
  pub not_denied : All (λ provider. provider ≢ c.provider) policy.denied_providers
  pub family : All (λ f. starts_with c.model_id f ≡ false) policy.denied_model_families
  pub in_budget :
      (most : F)
      → policy.max_cost_per_1k ≡ some most
      → floats.lt most (blended_cost_per_1k floats c.cost) ≡ false
  pub in_time :
      (most : F) → policy.max_latency_ms ≡ some most → floats.lt most c.latency.median_ms ≡ false
  pub in_context :
      (least : ℕ)
      → policy.min_context_tokens ≡ some least
      → least ≤ c.context_window.max_input_tokens
  pub capable :
      All (λ name. capability name c.capabilities ≢ some false) policy.required_capabilities
  pub constrained : All (λ k. k.predicate c ≡ true) policy.constraints

module _ {F : Type 0} (floats : Floats F) (quote : String → String) (show_int : ℕ → String)
    (is_healthy : String → String → Bool) (policy : RoutingPolicy F) (c : CandidateModel F) where
  family-right :
      (denied_family floats quote show_int c.model_id policy.denied_model_families ≡ none)
      ↔ All (λ f. starts_with c.model_id f ≡ false) policy.denied_model_families
  unfolding denied_family
  family-right =
      checks-All (λ f. starts_with c.model_id f ≡ false)
        (denied_family floats quote show_int c.model_id) _ refl (λ f fs. refl)
        (λ f. reason_if-none _ _) policy.denied_model_families

  capable-right :
      (missing_capability c.capabilities policy.required_capabilities ≡ none)
      ↔ All (λ name. capability name c.capabilities ≢ some false) policy.required_capabilities
  unfolding missing_capability
  capable-right =
      checks-All (λ name. capability name c.capabilities ≢ some false)
        (missing_capability c.capabilities) _ refl (λ f fs. refl)
        (λ name. ↔-trans (reason_if-none _ _) (is_lacking-false (capability name c.capabilities)))
        policy.required_capabilities

  constrained-right :
      (failed_constraint floats quote show_int c policy.constraints ≡ none)
      ↔ All (λ (k : RoutingConstraint F). k.predicate c ≡ true) policy.constraints
  unfolding failed_constraint
  constrained-right =
      checks-All (λ (k : RoutingConstraint F). k.predicate c ≡ true)
        (failed_constraint floats quote show_int c) _ refl (λ f fs. refl)
        (λ k. ↔-trans (reason_if-none _ _) (not-false (k.predicate c))) policy.constraints

  in_budget-right : (over_budget floats quote show_int c policy.max_cost_per_1k ≡ none) ↔ (
      (most : F)
      → policy.max_cost_per_1k ≡ some most
      → floats.lt most (blended_cost_per_1k floats c.cost) ≡ false)
  unfolding over_budget
  in_budget-right =
      checks_bound (over_budget floats quote show_int c) _ refl (λ most. reason_if-none _ _)
        policy.max_cost_per_1k

  in_time-right : (too_slow floats quote show_int c policy.max_latency_ms ≡ none) ↔ (
      (most : F) → policy.max_latency_ms ≡ some most → floats.lt most c.latency.median_ms ≡ false)
  unfolding too_slow
  in_time-right =
      checks_bound (too_slow floats quote show_int c) _ refl (λ most. reason_if-none _ _)
        policy.max_latency_ms

  in_context-right : (too_small floats quote show_int c policy.min_context_tokens ≡ none) ↔ (
      (least : ℕ)
      → policy.min_context_tokens ≡ some least
      → least ≤ c.context_window.max_input_tokens)
  unfolding too_small
  in_context-right =
      checks_bound (too_small floats quote show_int c) _ refl
        (λ least. ↔-trans (reason_if-none _ _) (ltb-false c.context_window.max_input_tokens least))
        policy.min_context_tokens

  right : (check_candidate floats quote show_int is_healthy policy c ≡ none) ↔ (
      (is_healthy c.model_id c.provider ≡ true)
      × ((c.reliability.healthy ≡ true)
          × (((policy.allowed_providers ≡ [])
                ⊎ (is_member c.provider policy.allowed_providers ≡ true))
              × (All (λ provider. provider ≢ c.provider) policy.denied_providers
                  × (All (λ f. starts_with c.model_id f ≡ false) policy.denied_model_families
                      × (((most : F)
                            → policy.max_cost_per_1k ≡ some most
                            → floats.lt most (blended_cost_per_1k floats c.cost) ≡ false)
                          × (((most : F)
                                → policy.max_latency_ms ≡ some most
                                → floats.lt most c.latency.median_ms ≡ false)
                              × (((least : ℕ)
                                    → policy.min_context_tokens ≡ some least
                                    → least ≤ c.context_window.max_input_tokens)
                                  × (All
                                        (λ name. capability name c.capabilities ≢ some false)
                                        policy.required_capabilities
                                      × All
                                          (λ (k : RoutingConstraint F). k.predicate c ≡ true)
                                          policy.constraints)))))))))
  unfolding check_candidate
  right = first_of-right (↔-trans (reason_if-none _ _) (not-false _)) (
      first_of-right (↔-trans (reason_if-none _ _) (not-false _)) (
        first_of-right
          (↔-trans (reason_if-none _ _) (not_allowed-false c.provider policy.allowed_providers))
          (first_of-right
            (↔-trans (reason_if-none _ _) (is_member-false c.provider policy.denied_providers))
            (first_of-right family-right (
              first_of-right in_budget-right (
                first_of-right in_time-right (
                  first_of-right in_context-right
                    (first_of-right capable-right constrained-right))))))))

-- A candidate has no reason to be disqualified exactly if it meets every constraint of the policy: the
-- health port and its profile call it healthy; its provider is allowed, where any are listed, and not
-- denied; no denied family is a prefix of its name; its blended cost, its median latency and its input
-- window keep the bounds that are set; no required capability is one that it lacks; and the custom
-- predicates hold.
pub check_candidate-Eligible :
    {F : Type 0} (floats : Floats F) (quote : String → String) (show_int : ℕ → String)
    (is_healthy : String → String → Bool) (policy : RoutingPolicy F) (c : CandidateModel F)
    → (check_candidate floats quote show_int is_healthy policy c ≡ none)
      ↔ Eligible floats is_healthy policy c
check_candidate-Eligible floats quote show_int is_healthy policy c =
    let r = right floats quote show_int is_healthy policy c in
    (
      λ h.
          let x = r.0 h in
          record {
            live = x.0;
            healthy = x.1.0;
            allowed = x.1.1.0;
            not_denied = x.1.1.1.0;
            family = x.1.1.1.1.0;
            in_budget = x.1.1.1.1.1.0;
            in_time = x.1.1.1.1.1.1.0;
            in_context = x.1.1.1.1.1.1.1.0;
            capable = x.1.1.1.1.1.1.1.1.0;
            constrained = x.1.1.1.1.1.1.1.1.1;
          },
      λ e. r.1 (
        e.live,
        (
          e.healthy,
          (
            e.allowed,
            (
              e.not_denied,
              (e.family, (e.in_budget, (e.in_time, (e.in_context, (e.capable, e.constrained))))),
            ),
          ),
        ),
      ),
    )
