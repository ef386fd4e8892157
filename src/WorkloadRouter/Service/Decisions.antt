-- ===== src/WorkloadRouter/Service/Decisions.antt =====
-- The steps of `RoutingService.route` in src/electripy/ai/workload_router/services.py.
use mathlib.Core.List.{filter}
use mathlib.Core.Logic.{ite}
use mathlib.Core.Path.{Path}
use mathlib.Core.Option.{none-ne-some}
use electripy_ai.Prelude.{
  ℕ, suc, ◌≤◌, ◌<◌, ◌≡◌, ◌≢◌, ◌↔◌, refl, ap, ◌∙◌, sym, subst, String, Bool, Option, none, some,
  List, [], ◌∷◌, map, length, arith, ltb, by_cases, ◌&&◌,
}
use electripy_ai.WorkloadRouter.Domain.{
  Floats, CandidateModel, CandidateScore, RoutingPolicy, RoutingRequest, RoutingDecision,
  DisqualifiedCandidate,
}
use electripy_ai.WorkloadRouter.Constraints.{check_candidate, sorted_out, apply_constraints}
use electripy_ai.WorkloadRouter.Constraints.Eligible.{Eligible, check_candidate-Eligible}
use electripy_ai.WorkloadRouter.Service.{
  RoutingError, not_enough_fallbacks, Routed, ok, raise, decision_of, decide,
}

module _ {F : Type 0} (floats : Floats F) (quote : String → String) (show_int : ℕ → String)
    (is_healthy : String → String → Bool) (policy : RoutingPolicy F) where
  abbrev pub decided :
      (c : CandidateModel F) (reason : Option String)
      → check_candidate floats quote show_int is_healthy policy c ≡ reason
      → Dec (Eligible floats is_healthy policy c)
  decided c none h = yes ((check_candidate-Eligible floats quote show_int is_healthy policy c).0 h)
  decided c (some reason) h = no (λ e.
      none-ne-some _
        (sym ((check_candidate-Eligible floats quote show_int is_healthy policy c).1 e) ∙ h))

  abbrev pub eligible? : (c : CandidateModel F) → Dec (Eligible floats is_healthy policy c)
  eligible? c = decided c _ refl

  sorted_out-ite :
      (c : CandidateModel F) (reason : Option String)
      (h : check_candidate floats quote show_int is_healthy policy c ≡ reason)
      (rest : List (CandidateModel F) × List (DisqualifiedCandidate F))
      (others : List (CandidateModel F))
      → rest.0 ≡ others
      → (sorted_out floats quote show_int is_healthy policy c reason rest).0
        ≡ ite (decided c reason h) (c ∷ others) others
  unfolding sorted_out
  sorted_out-ite c none h rest others e = ap (λ cs. c ∷ cs) e
  sorted_out-ite c (some reason) h rest others e = e

  pub apply_constraints-filter :
      (cs : List (CandidateModel F))
      → (apply_constraints floats quote show_int is_healthy policy cs).0 ≡ filter eligible? cs
  unfolding apply_constraints
  apply_constraints-filter [] = refl
  apply_constraints-filter (c ∷ cs) =
      sorted_out-ite c _ refl (apply_constraints floats quote show_int is_healthy policy cs)
        (filter eligible? cs) (apply_constraints-filter cs)

pub raise≢ok : {F A : Type 0} {e : RoutingError F} {a : A} → raise e ≢ ok a
raise≢ok h = subst (λ r. elim r [ ok a ↦ ⊥ | raise e ↦ Unit {0} ]) h tt

pub length-map : {A B : Type 0} (f : A → B) (xs : List A) → length (map f xs) ≡ length xs
length-map f [] = refl
length-map f (x ∷ xs) = ap suc (length-map f xs)

-- What follows the ranking.
pub record Follows {F : Type 0} (request : RoutingRequest F) (scores : List (CandidateScore F))
    (d : RoutingDecision F) : Type 0 where
  pub same : d.explanation.scores ≡ scores
  pub leads :
      map (λ (s : CandidateScore F). s.candidate) scores ≡ d.selected ∷ d.fallback_plan.candidates
  pub enough : request.policy.min_fallbacks ≤ length d.fallback_plan.candidates

pub ok-injective : {F A : Type 0} {a b : A} → Path (Routed F A) (ok a) (ok b) → a ≡ b
ok-injective {a = a} h = ap (λ r. elim r [ ok x ↦ x | raise e ↦ a ]) h

pub decide-Follows :
    {F : Type 0} (request : RoutingRequest F) (disqualified : List (DisqualifiedCandidate F))
    (scores : List (CandidateScore F)) (d : RoutingDecision F)
    → decide request disqualified scores ≡ ok d
    → Follows request scores d
unfolding decide decision_of
decide-Follows request disqualified [] d h = absurd (raise≢ok h)
decide-Follows {F} request disqualified (s ∷ rest) d h =
    let least = request.policy.min_fallbacks in
    by_cases (λ r. r ≡ ok d → Follows request (s ∷ rest) d) (ltb 0 least && ltb (length rest) least)
      (λ few e. absurd (raise≢ok e))
      (λ many e. subst (Follows request (s ∷ rest)) (ok-injective e) (record {
        same = refl;
        leads = refl;
        enough = ground (arith, many, length-map (λ (t : CandidateScore F). t.candidate) rest);
      }))
      h

pub decide-returns :
    {F : Type 0} (request : RoutingRequest F) (disqualified : List (DisqualifiedCandidate F))
    (scores : List (CandidateScore F))
    → ((d : RoutingDecision F) × (decide request disqualified scores ≡ ok d))
      ↔ (request.policy.min_fallbacks < length scores)
unfolding decide
decide-returns request disqualified [] =
    (λ h. absurd (raise≢ok h.1), λ h. absurd (omega (arith, h)))
decide-returns {F} request disqualified (s ∷ rest) =
    let least = request.policy.min_fallbacks in
    (
      λ h. ground (arith, h),
      λ h.
          by_cases (λ r. (d : RoutingDecision F) × (r ≡ ok d))
            {x = raise (not_enough_fallbacks least (length rest))}
            {y = ok (decision_of request disqualified s rest)}
            (ltb 0 least && ltb (length rest) least) (λ few. ground (arith, few, h))
            (λ many. (decision_of request disqualified s rest, refl)),
    )
