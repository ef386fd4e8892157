-- ===== src/TokenBudget/Middle.antt =====
-- The strategy that keeps both edges of a text (src/electripy/ai/token_budget/services.py), with the
-- bundled tokenizer at one token for each character.
use native.Mathlib.Nat.{div-zero, le-div_iff_mul-le, div-mul-le_self}
use electripy_ai.Prelude.{
  ℕ, zero, suc, ◌+◌, ◌-◌, ◌*◌, ◌/◌, ◌≤◌, ◌<◌, ◌≡◌, refl, false, [], ◌∷◌, ◌++◌, arith, length,
  length-take, length-drop, length-append, leb, if◌then◌else◌,
}
use electripy_ai.TokenBudget.{
  Text, middle, TruncationResult, truncation, char_estimator, prefix, suffix, dots,
  binary_search_prefix, binary_search_suffix, truncate_by_strategy, truncate_to_budget,
}
use electripy_ai.TokenBudget.Search.{longest_within, fits_at}
use electripy_ai.TokenBudget.Fit.{
  Monotone, binary_search_prefix-longest, binary_search_suffix-longest,
}

-- At one token for each character, the bundled tokenizer counts the characters.
pub char_estimator_one : (xs : Text) → char_estimator 1 xs ≡ length xs
unfolding char_estimator
char_estimator_one [] = refl
char_estimator_one (x ∷ xs) = ground arith

estimate : ℕ → ℕ → ℕ
estimate r zero = 0
estimate r (suc n) = let e = (2 * suc n + r) / (2 * r) in if leb 1 e then e else 1

char_estimator_lem : (r : ℕ) (xs : Text) → char_estimator r xs ≡ estimate r (length xs)
unfolding char_estimator estimate
char_estimator_lem r [] = refl
char_estimator_lem r (x ∷ xs) = refl

div_mono : (k a b : ℕ) → a ≤ b → a / k ≤ b / k
div_mono zero a b h = rw (div-zero a, div-zero b) (omega arith)
div_mono (suc k) a b h =
    (le-div_iff_mul-le {k = suc k} {x = a / suc k} {y = b} (omega arith)).1
      (omega (arith, div-mul-le_self a (suc k), h))

estimate_mono : (r m n : ℕ) → m ≤ n → estimate r m ≤ estimate r n
unfolding estimate
estimate_mono r zero n h = omega arith
estimate_mono r (suc m) zero h = absurd (omega (arith, h))
estimate_mono r (suc m) (suc n) h =
    let le : (2 * suc m + r) / (2 * r) ≤ (2 * suc n + r) / (2 * r) =
      div_mono (2 * r) (2 * suc m + r) (2 * suc n + r) (omega (arith, h)) in
    ground (arith, le)

-- The bundled tokenizer counts no more tokens in a part of a text than in the whole.
pub char_estimator-Monotone : (r : ℕ) → Monotone (char_estimator r)
char_estimator-Monotone r xs ys =
    rw (char_estimator_lem r xs, char_estimator_lem r ys, char_estimator_lem r (xs ++ ys))
      (
        estimate_mono r (length xs) (length (xs ++ ys)) (omega (arith, length-append xs ys)),
        estimate_mono r (length ys) (length (xs ++ ys)) (omega (arith, length-append xs ys)),
      )

module _ (budget : ℕ) (text : Text) (long : budget < length text) where
  length-prefix : (b : ℕ) → b ≤ budget → length (binary_search_prefix (char_estimator 1) b text) ≡ b
  length-prefix b h =
      rw
        (
          binary_search_prefix-longest (char_estimator 1) (char_estimator-Monotone 1) text b,
          longest_within (fits_at (prefix text) (char_estimator 1) b) b (length text + 1)
              (omega (arith, h, long)) within,
        )
        (omega (arith, length-take b text, h, long))
    where
      within : (k : ℕ) → k < length text + 1 → leb (char_estimator 1 (prefix text k)) b ≡ leb k b
      within k l = rw (char_estimator_one (prefix text k)) (ground (arith, length-take k text, l))

  length-suffix : (b : ℕ) → b ≤ budget → length (binary_search_suffix (char_estimator 1) b text) ≡ b
  length-suffix b h =
      rw
        (
          binary_search_suffix-longest (char_estimator 1) (char_estimator-Monotone 1) text b,
          longest_within (fits_at (suffix text) (char_estimator 1) b) b (length text + 1)
              (omega (arith, h, long)) within,
        )
        (omega (arith, length-drop (length text - b) text, h, long))
    where
      within : (k : ℕ) → k < length text + 1 → leb (char_estimator 1 (suffix text k)) b ≡ leb k b
      within k l =
          rw (char_estimator_one (suffix text k))
            (ground (arith, length-drop (length text - k) text, l))

-- With the bundled tokenizer at one token for each character: a text that exceeds the budget, cut in
-- the middle, exceeds it still, by the three characters of the mark between its edges.
middle_exceeds :
    (budget : ℕ) (text : Text) (r : TruncationResult)
    → budget < length text
    → truncate_to_budget (char_estimator 1) budget middle false text ≡ truncation r
    → r.final_tokens ≡ budget + 3
unfolding truncate_to_budget truncate_by_strategy
middle_exceeds budget text r long e =
    let half = budget / 2 in
    let front = binary_search_prefix (char_estimator 1) half text in
    let back = binary_search_suffix (char_estimator 1) (budget - half) text in
    ground (
      arith,
      e,
      char_estimator_one text,
      char_estimator_one ((front ++ dots) ++ back),
      length-append (front ++ dots) back,
      length-append front dots,
      length-prefix budget text long half (omega arith),
      length-suffix budget text long (budget - half) (omega arith),
    )
