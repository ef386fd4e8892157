-- ===== src/WorkloadRouter/Scoring.antt =====
-- Scores and their order (src/electripy/ai/workload_router/services.py).
pub mod Ranked
use electripy_ai.Prelude.{ℕ, String, Bool, true, false, List, [], ◌∷◌, map, if◌then◌else◌}
use text.Mathlib.Text.{◌==◌ as str_eq}
use electripy_ai.WorkloadRouter.Domain.{
  Floats, CandidateModel, ScoringWeights, RoutingPolicy, CandidateScore, blended_cost_per_1k,
}

-- `name in names`.
unfoldable pub is_member : String → List String → Bool
is_member name [] = false
is_member name (n ∷ names) =
    let later = is_member name names in if str_eq n name then true else later

module _ {F : Type 0} (floats : Floats F) where
  unfoldable pub normalise : F → F → F
  normalise value maximum =
      let left = floats.sub (floats.literal "1.0") (floats.div value maximum) in
      if floats.le maximum (floats.of_int 0)
      then floats.literal "1.0"
      else if floats.lt (floats.literal "0.0") left
      then left
      else floats.literal "0.0"

  -- Of two numbers that are equal, `min` returns the first.
  unfoldable pub context_share : ℕ → F
  context_share tokens =
      let share = floats.div (floats.of_int tokens) (floats.of_int 1000000) in
      if floats.lt (floats.literal "1.0") share then floats.literal "1.0" else share

  unfoldable pub score_candidate :
      ScoringWeights F → List String → CandidateModel F → CandidateScore F
  score_candidate weights preferred c =
      let cost_score =
        floats.mul (normalise (blended_cost_per_1k floats c.cost) (floats.literal "0.1"))
          weights.cost in
      let latency_score =
        floats.mul (normalise c.latency.median_ms (floats.literal "10_000.0")) weights.latency in
      let reliability_score = floats.mul c.reliability.availability weights.reliability in
      let context_score =
        floats.mul (context_share c.context_window.max_input_tokens) weights.context_window in
      let bonus =
        if is_member c.provider preferred then floats.literal "0.05" else floats.literal "0.0" in
      record {
        candidate = c;
        total_score =
            floats.add
              (floats.add (floats.add (floats.add cost_score latency_score) reliability_score)
                context_score)
              bonus;
        cost_score = cost_score;
        latency_score = latency_score;
        reliability_score = reliability_score;
        context_score = context_score;
      }

  unfoldable pub insert_score : CandidateScore F → List (CandidateScore F) → List (CandidateScore F)
  insert_score s [] = s ∷ []
  insert_score s (t ∷ ts) =
      let later = insert_score s ts in
      if floats.lt s.total_score t.total_score then t ∷ later else s ∷ t ∷ ts

  -- `list.sort` with `reverse=True`, a stable sort by `<`: of two equal scores the first stays in front.
  unfoldable pub sort_scores : List (CandidateScore F) → List (CandidateScore F)
  sort_scores [] = []
  sort_scores (s ∷ ss) = insert_score s (sort_scores ss)

  unfoldable pub score_and_rank :
      List (CandidateModel F) → RoutingPolicy F → List (CandidateScore F)
  score_and_rank candidates policy =
      sort_scores (map (score_candidate policy.weights policy.preferred_providers) candidates)
