-- ===== src/TokenBudget.antt =====
-- Token budgets: src/electripy/ai/token_budget/ (services.py, domain.py). A text is the list of its
-- code points, and a tokenizer is a port, the function `count`. A loop runs for a number of rounds
-- that the length of the text bounds.
pub mod Search
pub mod Fit
pub mod Middle
mod Tests
use electripy_ai.Prelude.{
  ℕ, zero, suc, ◌+◌, ◌-◌, ◌*◌, ◌/◌, Bool, true, false, List, [], ◌∷◌, ◌++◌, length, take, drop, ltb,
  leb, if◌then◌else◌,
}

abbrev pub Text : Type 0
Text = List ℕ

-- `TokenizerPort`.
abbrev pub Tokenizer : Type 0
Tokenizer = Text → ℕ

pub data TruncationStrategy : Type 0 where
  tail head middle : TruncationStrategy

pub record TokenCount : Type 0 where
  pub text : Text
  pub token_count : ℕ

pub record TruncationResult : Type 0 where
  pub text : Text
  pub original_tokens : ℕ
  pub final_tokens : ℕ
  pub was_truncated : Bool

-- `budget_exceeded` is `BudgetExceededError` with its token count and budget.
pub data Truncation : Type 0 where
  truncation : TruncationResult → Truncation
  budget_exceeded : ℕ → ℕ → Truncation

-- `CharEstimatorTokenizer(r).count`, for a whole ratio: `max(1, int(len(text) / r + 0.5))`.
pub char_estimator : ℕ → Tokenizer
char_estimator r [] = 0
char_estimator r (c ∷ cs) =
    let estimate = (2 * length (c ∷ cs) + r) / (2 * r) in if leb 1 estimate then estimate else 1

pub count_tokens : Tokenizer → Text → TokenCount
count_tokens count text = record { text = text; token_count = count text }

pub fits_budget : Tokenizer → ℕ → Text → Bool
fits_budget count budget text = leb (count text) budget

-- The `while` loop of both searches, where `cut mid` is the candidate; `top` is `hi + 1`.
pub search : (ℕ → Text) → Tokenizer → ℕ → ℕ → ℕ → ℕ → Text → Text
search cut count budget zero lo top best = best
search cut count budget (suc rounds) lo top best =
    let mid = (lo + (top - 1)) / 2 in
    let longer = search cut count budget rounds (mid + 1) top (cut mid) in
    let shorter = search cut count budget rounds lo mid best in
    if ltb lo top then if leb (count (cut mid)) budget then longer else shorter else best

abbrev pub prefix : Text → ℕ → Text
prefix text n = take n text

abbrev pub suffix : Text → ℕ → Text
suffix text n = drop (length text - n) text

pub binary_search_prefix : Tokenizer → ℕ → Text → Text
binary_search_prefix count budget text =
    search (prefix text) count budget (length text + 1) 0 (length text + 1) []

pub binary_search_suffix : Tokenizer → ℕ → Text → Text
binary_search_suffix count budget text =
    search (suffix text) count budget (length text + 1) 0 (length text + 1) []

abbrev pub dots : Text
dots = b'.' ∷ b'.' ∷ b'.' ∷ []

pub truncate_by_strategy : Tokenizer → ℕ → TruncationStrategy → Text → Text
truncate_by_strategy count budget tail text = binary_search_prefix count budget text
truncate_by_strategy count budget head text = binary_search_suffix count budget text
truncate_by_strategy count budget middle text =
    let half_budget = budget / 2 in
    (binary_search_prefix count half_budget text ++ dots)
    ++ binary_search_suffix count (budget - half_budget) text

pub truncate_to_budget : Tokenizer → ℕ → TruncationStrategy → Bool → Text → Truncation
truncate_to_budget count budget strategy strict text =
    let original = count text in
    let truncated = truncate_by_strategy count budget strategy text in
    if leb original budget
    then truncation (record {
      text = text;
      original_tokens = original;
      final_tokens = original;
      was_truncated = false;
    })
    else if strict
    then budget_exceeded original budget
    else truncation (record {
      text = truncated;
      original_tokens = original;
      final_tokens = count truncated;
      was_truncated = true;
    })
