-- ===== src/TokenBudget/Tests.antt =====
-- Concrete truncations of src/electripy/ai/token_budget/services.py.
use electripy_ai.Prelude.{ℕ, ◌≤◌, ◌≡◌, refl, true, false, [], ◌∷◌, arith}
use electripy_ai.TokenBudget.{
  Text, tail, head, TruncationResult, char_estimator, search, binary_search_prefix,
  binary_search_suffix, truncate_by_strategy, truncate_to_budget,
}
use electripy_ai.TokenBudget.Fit.{edge, IsLongest, truncation_fits, truncation-IsLongest}
use electripy_ai.TokenBudget.Middle.{char_estimator-Monotone}

program : Unit {0}
unfolding char_estimator search binary_search_prefix binary_search_suffix truncate_by_strategy
    truncate_to_budget
program = tt

abbrev abcdef : Text
abcdef = b'a' ∷ b'b' ∷ b'c' ∷ b'd' ∷ b'e' ∷ b'f' ∷ []

abbrev ef : TruncationResult
ef = record { text = b'e' ∷ b'f' ∷ []; original_tokens = 6; final_tokens = 2; was_truncated = true }

truncation_fits_example : (char_estimator 1 ef.text ≡ ef.final_tokens) × (ef.final_tokens ≤ 2)
unfolding program
truncation_fits_example =
    truncation_fits (char_estimator 1) 2 head false abcdef ef refl (omega arith) refl

truncation-IsLongest_example :
    (k : ℕ) × (truncate_by_strategy (char_estimator 4) 1 tail abcdef ≡ edge tail abcdef k)
    × IsLongest (char_estimator 4) 1 (edge tail abcdef) 6 k
truncation-IsLongest_example =
    truncation-IsLongest (char_estimator 4) 1 tail abcdef (char_estimator-Monotone 4) refl

tail_run : truncate_by_strategy (char_estimator 4) 1 tail abcdef ≡ edge tail abcdef 5
unfolding program
tail_run = refl

abbrev ab_ef : TruncationResult
ab_ef = record {
  text = b'a' ∷ b'b' ∷ b'.' ∷ b'.' ∷ b'.' ∷ b'e' ∷ b'f' ∷ [];
  original_tokens = 6;
  final_tokens = 7;
  was_truncated = true;
}
