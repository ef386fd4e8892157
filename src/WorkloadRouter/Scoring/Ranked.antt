-- ===== src/WorkloadRouter/Scoring/Ranked.antt =====
-- The order of the ranking of src/electripy/ai/workload_router/services.py.
use mathlib.Core.List.{Perm}
use mathlib.Core.List.Perm
use electripy_ai.Prelude.{
  suc, ◌≡◌, refl, ap, ◌∙◌, true, false, List, [], ◌∷◌, All, by_cases, length,
}
use electripy_ai.WorkloadRouter.Domain.{Floats, CandidateScore}
use electripy_ai.WorkloadRouter.Scoring.{insert_score, sort_scores}

-- What `<` keeps on floats that are numbers.
pub record Comparable {F : Type 0} (floats : Floats F) : Type 0 where
  pub asymmetric : (x y : F) → floats.lt x y ≡ true → floats.lt y x ≡ false
  pub transitive :
      (x y z : F) → floats.lt x y ≡ false → floats.lt y z ≡ false → floats.lt x z ≡ false

module _ {F : Type 0} (floats : Floats F) where
  -- Each score is below none that follows it.
  abbrev pub Ranked : List (CandidateScore F) → Type 0
  Ranked [] = Unit
  Ranked (s ∷ ss) =
      All (λ (t : CandidateScore F). floats.lt s.total_score t.total_score ≡ false) ss × Ranked ss

  insert_score-Perm :
      (s : CandidateScore F) (ss : List (CandidateScore F))
      → Perm (insert_score floats s ss) (s ∷ ss)
  unfolding insert_score
  insert_score-Perm s [] = Perm.refl (s ∷ [])
  insert_score-Perm s (t ∷ ts) =
      by_cases (λ x. Perm x (s ∷ t ∷ ts)) (floats.lt s.total_score t.total_score)
        (λ h. Perm.trans (Perm.cons t (insert_score-Perm s ts)) (Perm.swap s t ts))
        (λ h. Perm.refl (s ∷ t ∷ ts))

  insert_score-All :
      (P : CandidateScore F → Type 0) (s : CandidateScore F) (ss : List (CandidateScore F))
      → P s
      → All P ss
      → All P (insert_score floats s ss)
  unfolding insert_score
  insert_score-All P s [] p ps = (p, tt)
  insert_score-All P s (t ∷ ts) p ps =
      by_cases (All P) (floats.lt s.total_score t.total_score)
        (λ h. (ps.0, insert_score-All P s ts p ps.1)) (λ h. (p, ps))

  pub sort_scores-Perm : (ss : List (CandidateScore F)) → Perm (sort_scores floats ss) ss
  unfolding sort_scores
  sort_scores-Perm [] = Perm.refl []
  sort_scores-Perm (s ∷ ss) =
      Perm.trans (insert_score-Perm s (sort_scores floats ss)) (Perm.cons s (sort_scores-Perm ss))

  pub sort_scores-All :
      (P : CandidateScore F → Type 0) (ss : List (CandidateScore F))
      → All P ss
      → All P (sort_scores floats ss)
  unfolding sort_scores
  sort_scores-All P [] ps = tt
  sort_scores-All P (s ∷ ss) ps =
      insert_score-All P s (sort_scores floats ss) ps.0 (sort_scores-All P ss ps.1)

  length-insert_score :
      (s : CandidateScore F) (ss : List (CandidateScore F))
      → length (insert_score floats s ss) ≡ suc (length ss)
  unfolding insert_score
  length-insert_score s [] = refl
  length-insert_score s (t ∷ ts) =
      by_cases (λ (x : List (CandidateScore F)). length x ≡ suc (suc (length ts)))
        (floats.lt s.total_score t.total_score) (λ h. ap suc (length-insert_score s ts)) (λ h. refl)

  pub length-sort_scores :
      (ss : List (CandidateScore F)) → length (sort_scores floats ss) ≡ length ss
  unfolding sort_scores
  length-sort_scores [] = refl
  length-sort_scores (s ∷ ss) =
      length-insert_score s (sort_scores floats ss) ∙ ap suc (length-sort_scores ss)

  module _ (o : Comparable floats) where
    not_below :
        (s t : CandidateScore F) (ts : List (CandidateScore F))
        → floats.lt s.total_score t.total_score ≡ false
        → All (λ (u : CandidateScore F). floats.lt t.total_score u.total_score ≡ false) ts
        → All (λ (u : CandidateScore F). floats.lt s.total_score u.total_score ≡ false) ts
    not_below s t [] h below = tt
    not_below s t (u ∷ us) h below = (
      o.transitive s.total_score t.total_score u.total_score h below.0,
      not_below s t us h below.1,
    )

    insert_score-Ranked :
        (s : CandidateScore F) (ss : List (CandidateScore F))
        → Ranked ss
        → Ranked (insert_score floats s ss)
    unfolding insert_score
    insert_score-Ranked s [] r = (tt, tt)
    insert_score-Ranked s (t ∷ ts) r =
        by_cases Ranked (floats.lt s.total_score t.total_score)
          (λ h. (
            insert_score-All
                (λ (u : CandidateScore F). floats.lt t.total_score u.total_score ≡ false) s ts
                (o.asymmetric s.total_score t.total_score h) r.0,
            insert_score-Ranked s ts r.1,
          ))
          (λ h. ((h, not_below s t ts h r.0), r))

    pub sort_scores-Ranked : (ss : List (CandidateScore F)) → Ranked (sort_scores floats ss)
    unfolding sort_scores
    sort_scores-Ranked [] = tt
    sort_scores-Ranked (s ∷ ss) =
        insert_score-Ranked s (sort_scores floats ss) (sort_scores-Ranked ss)
