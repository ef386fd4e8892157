-- ===== src/WorkloadRouter/Constraints/Checks.antt =====
-- When a check of src/electripy/ai/workload_router/services.py has no reason to give.
use mathlib.Core.Option.{none-ne-some}
use mathlib.Core.List.{cons≢nil}
use text.Mathlib.TextEquality.{eq_iff}
use electripy_ai.Prelude.{
  ℕ, ◌≤◌, ◌≡◌, ◌≢◌, ◌↔◌, ◌⊎◌, inl, inr, refl, sym, subst, ◌∙◌, String, Bool, true, false, not, ◌&&◌,
  Option, none, some, some-injective, List, [], ◌∷◌, All, ltb, arith,
}
use electripy_ai.WorkloadRouter.Scoring.{is_member}
use electripy_ai.WorkloadRouter.Constraints.{reason_if, first_of, is_empty, is_lacking}

pub first_of-none : (a b : Option String) → (first_of a b ≡ none) ↔ ((a ≡ none) × (b ≡ none))
unfolding first_of
first_of-none none b = (λ h. (refl, h), λ h. h.1)
first_of-none (some r) b = (λ h. ground (arith, h), λ h. ground (arith, h.0))

pub reason_if-none : (b : Bool) (r : String) → (reason_if b r ≡ none) ↔ (b ≡ false)
unfolding reason_if
reason_if-none true r = (λ h. ground (arith, h), λ h. ground (arith, h))
reason_if-none false r = (λ h. refl, λ h. refl)

-- A check of every element, against what it asks of one.
module _ {A : Type 0} (Good : A → Type 0) (check : List A → Option String) (one : A → Option String)
    (at_nil : check [] ≡ none)
    (at_cons : (x : A) (xs : List A) → check (x ∷ xs) ≡ first_of (one x) (check xs))
    (right : (x : A) → (one x ≡ none) ↔ Good x) where
  pub checks-All : (xs : List A) → (check xs ≡ none) ↔ All Good xs
  checks-All [] = (λ h. tt, λ h. at_nil)
  checks-All (x ∷ xs) =
      let both = first_of-none (one x) (check xs) in
      (
        λ h. (
          (right x).0 (both.0 (sym (at_cons x xs) ∙ h)).0,
          (checks-All xs).0 (both.0 (sym (at_cons x xs) ∙ h)).1,
        ),
        λ h. at_cons x xs ∙ both.1 ((right x).1 h.0, (checks-All xs).1 h.1),
      )

pub is_member-false :
    (name : String) (names : List String)
    → (is_member name names ≡ false) ↔ All (λ n. n ≢ name) names
unfolding is_member
is_member-false name [] = (λ h. tt, λ h. refl)
is_member-false name (n ∷ names) = (
  λ h. (
    λ e. ground (arith, eq_iff n name, e, h),
    (is_member-false name names).0 (ground (arith, h)),
  ),
  λ h. ground (arith, eq_iff n name, h.0, (is_member-false name names).1 h.1),
)

pub not-false : (b : Bool) → (not b ≡ false) ↔ (b ≡ true)
not-false true = (λ h. refl, λ h. refl)
not-false false = (λ h. sym h, λ h. sym h)

pub is_lacking-false : (b : Option Bool) → (is_lacking b ≡ false) ↔ (b ≢ some false)
unfolding is_lacking
is_lacking-false none = (λ h e. absurd (none-ne-some _ e), λ h. refl)
is_lacking-false (some true) = (λ h e. ground (arith, some-injective true false e), λ h. refl)
is_lacking-false (some false) = (λ h. ground (arith, h), λ h. absurd (h refl))

pub not_allowed-false :
    (provider : String) (allowed : List String)
    → ((not (is_empty allowed) && not (is_member provider allowed)) ≡ false)
      ↔ ((allowed ≡ []) ⊎ (is_member provider allowed ≡ true))
unfolding is_empty
not_allowed-false provider [] = (λ h. inl refl, λ h. refl)
not_allowed-false provider (x ∷ xs) =
    let b = is_member provider (x ∷ xs) in
    (
      λ h. inr ((not-false b).0 h),
      λ h. (not-false b).1 (elim h [ inl e ↦ absurd (cons≢nil e) | inr e ↦ e ]),
    )

-- A check that there may be a bound for.
module _ {B : Type 0} (check : Option B → Option String) (Good : B → Type 0)
    (at_none : check none ≡ none) (right : (b : B) → (check (some b) ≡ none) ↔ Good b) where
  pub checks_bound : (x : Option B) → (check x ≡ none) ↔ ((b : B) → x ≡ some b → Good b)
  checks_bound none = (λ h b e. absurd (none-ne-some _ e), λ h. at_none)
  checks_bound (some b) =
      (λ h b' e. subst Good (some-injective b b' e) ((right b).0 h), λ h. (right b).1 (h b refl))

pub ltb-false : (m n : ℕ) → (ltb m n ≡ false) ↔ (n ≤ m)
ltb-false m n = (λ h. ground (arith, h), λ h. ground (arith, h))

pub ↔-trans : {A B C : Type 0} → (A ↔ B) → (B ↔ C) → A ↔ C
↔-trans f g = (λ a. g.0 (f.0 a), λ c. f.1 (g.1 c))

pub first_of-right :
    {A B : Type 0} {a b : Option String}
    → ((a ≡ none) ↔ A)
    → ((b ≡ none) ↔ B)
    → (first_of a b ≡ none) ↔ (A × B)
first_of-right {a} {b} f g =
    let both = first_of-none a b in
    (λ h. (f.0 (both.0 h).0, g.0 (both.0 h).1), λ h. both.1 (f.1 h.0, g.1 h.1))
