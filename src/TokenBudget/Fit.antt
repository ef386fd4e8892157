-- ===== src/TokenBudget/Fit.antt =====
-- What truncation keeps (src/electripy/ai/token_budget/services.py).
use electripy_ai.Prelude.{
  ℕ, zero, suc, ◌+◌, ◌-◌, ◌≤◌, ◌≡◌, refl, ap, sym, ◌<◌, ◌⊎◌, inl, inr, Bool, true, false, [], ◌∷◌,
  ◌++◌, arith, length, take, drop,
}
use electripy_ai.TokenBudget.{
  Text, Tokenizer, TruncationStrategy, tail, head, middle, TruncationResult, truncation, prefix,
  suffix, binary_search_prefix, binary_search_suffix, truncate_by_strategy, truncate_to_budget,
}
use electripy_ai.TokenBudget.Search.{
  longest, longest-fits, longest-passes, longest-le, fits_at, Grows, search_lem, search-Chosen,
}

abbrev pub is_middle : TruncationStrategy → Bool
is_middle middle = true
is_middle _ = false

-- The edge of a text that a strategy keeps, by its length.
abbrev pub edge : TruncationStrategy → Text → ℕ → Text
edge head text n = suffix text n
edge _ text n = prefix text n

-- A text has at least as many tokens as each of its two parts.
abbrev pub Monotone : Tokenizer → Type 0
Monotone count = (xs ys : Text) → (count xs ≤ count (xs ++ ys)) × (count ys ≤ count (xs ++ ys))

truncate-Chosen :
    (P : Text → Type 0) (count : Tokenizer) (budget : ℕ) (strategy : TruncationStrategy)
    (text : Text)
    → is_middle strategy ≡ false
    → P []
    → ((xs : Text) → count xs ≤ budget → P xs)
    → P (truncate_by_strategy count budget strategy text)
unfolding truncate_by_strategy binary_search_prefix binary_search_suffix
truncate-Chosen P count budget tail text e p fitting =
    search-Chosen (prefix text) count budget P (λ n h. fitting (prefix text n) (ground (arith, h)))
      (length text + 1) 0 (length text + 1) [] p
truncate-Chosen P count budget head text e p fitting =
    search-Chosen (suffix text) count budget P (λ n h. fitting (suffix text n) (ground (arith, h)))
      (length text + 1) 0 (length text + 1) [] p
truncate-Chosen P count budget middle text e p fitting = ground (arith, e)

-- Whatever the tokenizer, if it counts no more tokens than the budget in the empty text: with a
-- strategy that keeps one edge of a text, the text returned fits the budget, and its tokens are
-- reported as counted.
pub truncation_fits :
    (count : Tokenizer) (budget : ℕ) (strategy : TruncationStrategy) (strict : Bool) (text : Text)
    (r : TruncationResult)
    → is_middle strategy ≡ false
    → count [] ≤ budget
    → truncate_to_budget count budget strategy strict text ≡ truncation r
    → (count r.text ≡ r.final_tokens) × (r.final_tokens ≤ budget)
unfolding truncate_to_budget
truncation_fits count budget strategy strict text r edges empty e =
    let short =
      truncate-Chosen (λ xs. count xs ≤ budget) count budget strategy text edges empty
        (λ xs h. h) in
    ground (arith, e, short)

take_nil : (k : ℕ) → [] ≡ take {A = ℕ} k []
take_nil zero = refl
take_nil (suc k) = refl

take_split : (i j : ℕ) (xs : Text) → i ≤ j → take j xs ≡ take i xs ++ take (j - i) (drop i xs)
take_split zero j xs h = ap (λ k. take k xs) (omega arith)
take_split (suc i) zero xs h = absurd (omega (arith, h))
take_split (suc i) (suc j) [] h = take_nil (suc j - suc i)
take_split (suc i) (suc j) (x ∷ xs) h =
    let e : suc j - suc i ≡ j - i = omega arith in
    rw e (ap (λ ys. x ∷ ys) (take_split i j xs (omega (arith, h))))

take-drop : (j : ℕ) (xs : Text) → xs ≡ take j xs ++ drop j xs
take-drop zero xs = refl
take-drop (suc j) [] = refl
take-drop (suc j) (x ∷ xs) = ap (λ ys. x ∷ ys) (take-drop j xs)

drop_split : (i j : ℕ) (xs : Text) → i ≤ j → drop i xs ≡ take (j - i) (drop i xs) ++ drop j xs
drop_split zero j xs h = let e : j - 0 ≡ j = omega arith in rw e (take-drop j xs)
drop_split (suc i) zero xs h = absurd (omega (arith, h))
drop_split (suc i) (suc j) [] h = ap (λ ys. ys ++ []) (take_nil (suc j - suc i))
drop_split (suc i) (suc j) (x ∷ xs) h =
    let e : suc j - suc i ≡ j - i = omega arith in rw e (drop_split i j xs (omega (arith, h)))

drop_all : (n : ℕ) (xs : Text) → length xs ≤ n → drop n xs ≡ []
drop_all zero [] h = refl
drop_all zero (x ∷ xs) h = absurd (omega (arith, h))
drop_all (suc n) [] h = refl
drop_all (suc n) (x ∷ xs) h = drop_all n xs (omega (arith, h))

module _ (count : Tokenizer) (monotone : Monotone count) (text : Text) where
  prefix-Grows : (budget : ℕ) → Grows (prefix text) count budget
  prefix-Grows budget i j h =
      rw (take_split i j text h) (monotone (take i text) (take (j - i) (drop i text))).0

  suffix-Grows : (budget : ℕ) → Grows (suffix text) count budget
  suffix-Grows budget i j h =
      let a = length text - j in
      let b = length text - i in
      rw (drop_split a b text (omega (arith, h)))
        (monotone (take (b - a) (drop a text)) (drop b text)).1

  pub binary_search_prefix-longest :
      (budget : ℕ)
      → binary_search_prefix count budget text
        ≡ prefix text (longest (fits_at (prefix text) count budget) (length text + 1))
  unfolding binary_search_prefix
  binary_search_prefix-longest budget =
      search_lem (prefix text) count budget (prefix-Grows budget) (length text + 1) 0
        (length text + 1) [] (omega arith) (omega arith) (refl, inl refl)

  pub binary_search_suffix-longest :
      (budget : ℕ)
      → binary_search_suffix count budget text
        ≡ suffix text (longest (fits_at (suffix text) count budget) (length text + 1))
  unfolding binary_search_suffix
  binary_search_suffix-longest budget =
      search_lem (suffix text) count budget (suffix-Grows budget) (length text + 1) 0
        (length text + 1) [] (omega arith) (omega arith)
        (sym (drop_all (length text - 0) text (omega arith)), inl refl)

-- An edge of a text that fits the budget, where any edge does, and no edge that fits is longer.
abbrev pub IsLongest : Tokenizer → ℕ → (ℕ → Text) → ℕ → ℕ → Type 0
IsLongest count budget cut most k =
    (k ≤ most)
    × ((count (cut k) ≤ budget) ⊎ ((k ≡ 0) × ((n : ℕ) → n ≤ most → budget < count (cut n))))
    × ((n : ℕ) → n ≤ most → count (cut n) ≤ budget → n ≤ k)

longest-IsLongest :
    (cut : ℕ → Text) (count : Tokenizer) (budget most : ℕ)
    → IsLongest count budget cut most (longest (fits_at cut count budget) (most + 1))
longest-IsLongest cut count budget most =
    let fits = fits_at cut count budget in
    (
      longest-le fits most,
      elim (longest-passes fits (most + 1)) [
        | inl passes ↦ inl (ground (arith, passes))
        | inr (e, none) ↦ inr (e, λ n h. ground (arith, none n (omega (arith, h))))
      ],
      λ n h f. longest-fits fits (most + 1) n (omega (arith, h)) (ground (arith, f)),
    )

-- With a tokenizer that counts no more tokens in a part of a text than in the whole: a strategy that
-- keeps one edge of a text returns an edge that fits the budget, and no longer edge of it fits; or, where
-- no edge fits, not even the empty one, it returns the empty one.
pub truncation-IsLongest :
    (count : Tokenizer) (budget : ℕ) (strategy : TruncationStrategy) (text : Text)
    → Monotone count
    → is_middle strategy ≡ false
    → (k : ℕ) × (truncate_by_strategy count budget strategy text ≡ edge strategy text k)
      × IsLongest count budget (edge strategy text) (length text) k
unfolding truncate_by_strategy
truncation-IsLongest count budget tail text monotone e = (
  longest (fits_at (prefix text) count budget) (length text + 1),
  binary_search_prefix-longest count monotone text budget,
  longest-IsLongest (prefix text) count budget (length text),
)
truncation-IsLongest count budget head text monotone e = (
  longest (fits_at (suffix text) count budget) (length text + 1),
  binary_search_suffix-longest count monotone text budget,
  longest-IsLongest (suffix text) count budget (length text),
)
truncation-IsLongest count budget middle text monotone e = absurd (ground (arith, e))
