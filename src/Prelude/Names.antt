-- ===== src/Prelude/Names.antt =====
-- Python's `dict` with texts as keys: an association list in order of insertion.
use text.Mathlib.Text.{◌==◌ as str_eq}
use text.Mathlib.TextEquality.{eq_iff}
use Prim.Native.String.{String}
use mathlib.Core.Path.{◌≡◌, refl, subst}
use mathlib.Core.Option.{Option, none, some}
use mathlib.Core.List.{List, [], ◌∷◌, ◌++◌}
use native.Mathlib.Omega.{arith}
use electripy_ai.Prelude.Tests.{if◌then◌else◌, by_cases}

abbrev pub Names {ℓ} : Type ℓ → Type ℓ
Names V = List (String × V)

module _ {ℓ} {V : Type ℓ} where
  unfoldable pub get : String → Names V → Option V
  get name [] = none
  get name (entry ∷ rest) =
      let later = get name rest in if str_eq entry.0 name then some entry.1 else later

  -- A name that is there keeps its place.
  unfoldable pub put : String → V → Names V → Names V
  put name value [] = (name, value) ∷ []
  put name value (entry ∷ rest) =
      let later = put name value rest in
      if str_eq entry.0 name then (name, value) ∷ rest else entry ∷ later

  pub get-put :
      (name asked : String) (value : V) (names : Names V)
      → get asked (put name value names)
        ≡ (if str_eq name asked then some value else get asked names)
  unfolding get put
  get-put name asked value [] = refl
  get-put name asked value (entry ∷ rest) = ground (
    arith,
    eq_iff name asked,
    eq_iff entry.0 name,
    eq_iff entry.0 asked,
    get-put name asked value rest,
  )

  -- No name stands twice.
  abbrev pub Distinct : Names V → Type ℓ
  Distinct [] = Unit
  Distinct (entry ∷ rest) = (get entry.0 rest ≡ none) × Distinct rest

  pub put-Distinct :
      (name : String) (value : V) (names : Names V)
      → Distinct names
      → Distinct (put name value names)
  unfolding get put
  put-Distinct name value [] d = (refl, tt)
  put-Distinct name value (entry ∷ rest) d =
      by_cases Distinct (str_eq entry.0 name)
        (λ same. (subst (λ k. get k rest ≡ none) ((eq_iff entry.0 name).0 same) d.0, d.1))
        (λ other. (
          ground (
            arith,
            get-put name entry.0 value rest,
            d.0,
            other,
            eq_iff name entry.0,
            eq_iff entry.0 name,
          ),
          put-Distinct name value rest d.1,
        ))

  -- A new name is last.
  pub put_fresh :
      (name : String) (value : V) (names : Names V)
      → get name names ≡ none
      → put name value names ≡ names ++ (name, value) ∷ []
  unfolding get put
  put_fresh name value [] e = refl
  put_fresh name value (entry ∷ rest) e = ground (arith, e, put_fresh name value rest)
