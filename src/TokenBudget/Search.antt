-- ===== src/TokenBudget/Search.antt =====
-- The binary search of src/electripy/ai/token_budget/services.py against a linear one.
use electripy_ai.Prelude.{
  ℕ, zero, suc, ◌+◌, ◌-◌, ◌/◌, ◌≤◌, ◌<◌, ◌≡◌, refl, ◌==◌, ap, ◌∙◌, sym, subst, ◌⊎◌, inl, inr, Bool,
  true, false, arith, Bool-cases, ltb, leb, if◌then◌else◌,
}
use electripy_ai.TokenBudget.{Text, Tokenizer, search}

-- The greatest number below the bound that passes the test, or 0.
pub longest : (ℕ → Bool) → ℕ → ℕ
longest fits zero = 0
longest fits (suc n) = let rest = longest fits n in if fits n then n else rest

pub longest-fits : (fits : ℕ → Bool) (n j : ℕ) → j < n → fits j ≡ true → j ≤ longest fits n
unfolding longest
longest-fits fits zero j h f = omega (arith, h)
longest-fits fits (suc n) j h f = elim (Bool-cases (fits n)) [
  | inl here ↦ rw here (omega (arith, h))
  | inr there ↦ rw there (longest-fits fits n j (ground (arith, f)) f)
]

pub longest-le : (fits : ℕ → Bool) (n : ℕ) → longest fits (n + 1) ≤ n
unfolding longest
longest-le fits zero = ground arith
longest-le fits (suc n) =
    let e : suc n + 1 ≡ suc (n + 1) = omega arith in ground (arith, longest-le fits n, e)

-- The greatest passes, or nothing does and it is 0.
pub longest-passes :
    (fits : ℕ → Bool) (n : ℕ)
    → (fits (longest fits n) ≡ true) ⊎ ((longest fits n ≡ 0) × ((j : ℕ) → j < n → fits j ≡ false))
unfolding longest
longest-passes fits zero = inr (refl, λ j h. absurd (omega (arith, h)))
longest-passes fits (suc n) = elim (Bool-cases (fits n)) [
  | inl here ↦ rw here (inl here)
  | inr there ↦ elim (longest-passes fits n) [
    | inl passes ↦ rw there (inl passes)
    | inr (e, none) ↦ rw there (
        inr (
          e,
          λ j h. elim (Bool-cases (j == n)) [
            | inl last ↦ subst (λ k. fits k ≡ false) (ground (arith, last)) there
            | inr before ↦ none j (ground (arith, h, before))
          ],
        ))
  ]
]

-- Where the test asks for a number within a bound, the bound is the greatest that passes.
pub longest_within :
    (fits : ℕ → Bool) (b n : ℕ) → b < n → ((k : ℕ) → k < n → fits k ≡ leb k b) → longest fits n ≡ b
unfolding longest
longest_within fits b zero h f = omega (arith, h)
longest_within fits b (suc n) h f = elim (Bool-cases (fits n)) [
  | inl here ↦ rw here (ground (arith, here, f n (omega arith), h))
  | inr there ↦ rw there (
      longest_within fits b n (ground (arith, there, f n (omega arith), h))
        λ k l. f k (omega (arith, l)))
]

-- Where nothing passes from `mid` on, the search may stop at `mid`.
longest_stop :
    (fits : ℕ → Bool) (mid d : ℕ)
    → ((j : ℕ) → mid ≤ j → j < mid + d → fits j ≡ false)
    → longest fits (mid + d) ≡ longest fits mid
unfolding longest
longest_stop fits mid zero none = ap (longest fits) (omega arith)
longest_stop fits mid (suc d) none =
    let e : mid + suc d ≡ suc (mid + d) = omega arith in
    rw e (
      rw (none (mid + d) (omega arith) (omega arith))
        (longest_stop fits mid d λ j a b. none j a (omega arith)))

module _ (cut : ℕ → Text) (count : Tokenizer) (budget : ℕ) where
  abbrev pub fits_at : ℕ → Bool
  fits_at n = leb (count (cut n)) budget

  -- A longer cut has at least as many tokens.
  abbrev pub Grows : Type 0
  Grows = (i j : ℕ) → i ≤ j → count (cut i) ≤ count (cut j)

  -- What the loop knows of its lower bound.
  abbrev pub Best : ℕ → Text → Type 0
  Best lo best = (best ≡ cut (lo - 1)) × ((lo ≡ 0) ⊎ (fits_at (lo - 1) ≡ true))

  finished : (lo : ℕ) (best : Text) → Best lo best → best ≡ cut (longest fits_at lo)
  unfolding longest
  finished zero best (e, f) = e ∙ ap cut (omega arith)
  finished (suc n) best (e, inl f) = absurd (omega (arith, f))
  finished (suc n) best (e, inr f) =
      let here : suc n - 1 ≡ n = omega arith in e ∙ rw (here, subst (λ k. fits_at k ≡ true) here f)

  module _ (grows : Grows) where
    pub search_lem :
        (rounds lo top : ℕ) (best : Text)
        → top ≤ lo + rounds
        → lo ≤ top
        → Best lo best
        → search cut count budget rounds lo top best ≡ cut (longest fits_at top)
    unfolding search
    search_lem zero lo top best enough h b =
        let e : lo ≡ top = omega (arith, enough, h) in
        subst (λ k. best ≡ cut (longest fits_at k)) e (finished lo best b)
    search_lem (suc rounds) lo top best enough h b = elim (Bool-cases (ltb lo top)) [
      | inr stop ↦
          let e : lo ≡ top = ground (arith, h, stop) in
          rw stop (subst (λ k. best ≡ cut (longest fits_at k)) e (finished lo best b))
      | inl more ↦
          let mid = (lo + (top - 1)) / 2 in
          let below : lo ≤ mid = ground (arith, more) in
          let above : mid < top = ground (arith, more) in
          elim (Bool-cases (fits_at mid)) [
            | inl here ↦
                let last : mid + 1 - 1 ≡ mid = omega arith in
                rw (more, here)
                  (search_lem rounds (mid + 1) top (cut mid) (omega (arith, enough, below))
                    (omega (arith, above))
                    (ap cut (sym last), inr (subst (λ k. fits_at k ≡ true) (sym last) here)))
            | inr there ↦
                let rest : top ≡ mid + (top - mid) = omega (arith, above) in
                let none : (j : ℕ) → mid ≤ j → j < mid + (top - mid) → fits_at j ≡ false =
                  λ j a b. ground (arith, grows mid j a, there) in
                rw (more, there)
                  (search_lem rounds lo mid best (omega (arith, enough, above)) below b
                    ∙ ap cut (sym (longest_stop fits_at mid (top - mid) none))
                    ∙ ap (λ k. cut (longest fits_at k)) (sym rest))
          ]
    ]

  -- Whatever the tokenizer, the loop returns its start or a cut that fits.
  pub search-Chosen :
      (P : Text → Type 0)
      → ((n : ℕ) → fits_at n ≡ true → P (cut n))
      → (rounds lo top : ℕ) (best : Text) → P best
      → P (search cut count budget rounds lo top best)
  unfolding search
  search-Chosen P fitting zero lo top best p = p
  search-Chosen P fitting (suc rounds) lo top best p =
      let mid = (lo + (top - 1)) / 2 in
      elim (Bool-cases (ltb lo top)) [
        | inr stop ↦ rw stop p
        | inl more ↦ elim (Bool-cases (fits_at mid)) [
          | inl here ↦
              rw (more, here)
                (search-Chosen P fitting rounds (mid + 1) top (cut mid) (fitting mid here))
          | inr there ↦ rw (more, there) (search-Chosen P fitting rounds lo mid best p)
        ]
      ]
