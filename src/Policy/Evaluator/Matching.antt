-- ===== src/Policy/Evaluator/Matching.antt =====
-- Which rules the evaluator of src/electripy/ai/policy/adapters.py looks at: its filters and its sort
-- neither lose nor invent a rule, and keep identifiers distinct.
use text.Mathlib.Text.{◌==◌ as str_eq}
use text.Mathlib.TextEquality.{eq_iff}
use text.Mathlib.TextPositions.{eq_refl}
use electripy_ai.Prelude.{
  ◌≡◌, refl, ◌∙◌, String, Bool, true, false, not, ◌&&◌, ◌||◌, none, some, List, [], ◌∷◌, arith, All,
  Bool-cases, inl, inr,
}
use electripy_ai.Policy.Domain.{PolicyContext, PolicyRule}
use electripy_ai.Policy.Evaluator.{
  applies, matching, insert_rule, sort_rules, match_rules, satisfied, violated, rule_map_get,
}

unfoldable pub any : (PolicyRule → Bool) → List PolicyRule → Bool
any p [] = false
any p (r ∷ rs) = p r || any p rs

any-insert_rule :
    (p : PolicyRule → Bool) (r : PolicyRule) (rs : List PolicyRule)
    → any p (insert_rule r rs) ≡ (p r || any p rs)
unfolding any insert_rule
any-insert_rule p r [] = refl
any-insert_rule p r (s ∷ rs) = ground (arith, any-insert_rule p r rs)

any-sort_rules : (p : PolicyRule → Bool) (rs : List PolicyRule) → any p (sort_rules rs) ≡ any p rs
unfolding any sort_rules
any-sort_rules p [] = refl
any-sort_rules p (r ∷ rs) = any-insert_rule p r (sort_rules rs) ∙ rw (any-sort_rules p rs)

any-matching :
    (p : PolicyRule → Bool) (context : PolicyContext) (rs : List PolicyRule)
    → any p (matching context rs) ≡ any (λ r. applies context r && p r) rs
unfolding any matching
any-matching p context [] = refl
any-matching p context (r ∷ rs) = ground (arith, any-matching p context rs)

any-violated :
    (p : PolicyRule → Bool) (context : PolicyContext) (rs : List PolicyRule)
    → any p (violated context rs) ≡ any (λ r. not (satisfied context r) && p r) rs
unfolding any violated
any-violated p context [] = refl
any-violated p context (r ∷ rs) = ground (arith, any-violated p context rs)

-- A rule that is in force here, is not satisfied, and has the property.
unfoldable pub offends : PolicyContext → (PolicyRule → Bool) → PolicyRule → Bool
offends context p r = applies context r && (not (satisfied context r) && p r)

pub any-violated-match_rules :
    (p : PolicyRule → Bool) (context : PolicyContext) (rs : List PolicyRule)
    → any p (violated context (match_rules context rs)) ≡ any (offends context p) rs
unfolding match_rules offends
any-violated-match_rules p context rs =
    any-violated p context (sort_rules (matching context rs))
    ∙ any-sort_rules _ (matching context rs)
    ∙ any-matching _ context rs

unfoldable pub named : String → PolicyRule → Bool
named id r = str_eq r.rule_id id

-- No two rules share an identifier.
unfoldable pub distinct : List PolicyRule → Bool
distinct [] = true
distinct (r ∷ rs) = not (any (named r.rule_id) rs) && distinct rs

distinct-insert_rule :
    (r : PolicyRule) (rs : List PolicyRule)
    → any (named r.rule_id) rs ≡ false
    → distinct rs ≡ true
    → distinct (insert_rule r rs) ≡ true
unfolding any named distinct insert_rule
distinct-insert_rule r [] new h = refl
distinct-insert_rule r (s ∷ rs) new h = ground (
  arith,
  eq_iff r.rule_id s.rule_id,
  eq_iff s.rule_id r.rule_id,
  any-insert_rule (named s.rule_id) r rs,
  distinct-insert_rule r rs,
)

distinct-sort_rules : (rs : List PolicyRule) → distinct rs ≡ true → distinct (sort_rules rs) ≡ true
unfolding sort_rules distinct
distinct-sort_rules [] h = h
distinct-sort_rules (r ∷ rs) h =
    distinct-insert_rule r (sort_rules rs) (any-sort_rules (named r.rule_id) rs ∙ ground arith)
      (distinct-sort_rules rs (ground arith))

any-matching_none :
    (p : PolicyRule → Bool) (context : PolicyContext) (rs : List PolicyRule)
    → any p rs ≡ false
    → any p (matching context rs) ≡ false
unfolding any matching
any-matching_none p context [] h = refl
any-matching_none p context (r ∷ rs) h = ground (arith, any-matching_none p context rs)

distinct-matching :
    (context : PolicyContext) (rs : List PolicyRule)
    → distinct rs ≡ true
    → distinct (matching context rs) ≡ true
unfolding distinct matching
distinct-matching context [] h = h
distinct-matching context (r ∷ rs) h =
    ground (arith, any-matching_none (named r.rule_id) context rs, distinct-matching context rs)

pub distinct-match_rules :
    (context : PolicyContext) (rs : List PolicyRule)
    → distinct rs ≡ true
    → distinct (match_rules context rs) ≡ true
unfolding match_rules
distinct-match_rules context rs h =
    distinct-sort_rules (matching context rs) (distinct-matching context rs h)

rule_map_get-none :
    (id : String) (rs : List PolicyRule) → any (named id) rs ≡ false → rule_map_get rs id ≡ none
unfolding any named rule_map_get
rule_map_get-none id [] h = refl
rule_map_get-none id (r ∷ rs) h = ground (arith, rule_map_get-none id rs)

-- The rules of the list whose identifier the map resolves to themselves.
abbrev pub Resolved : List PolicyRule → List PolicyRule → Type 0
Resolved matched rs = All (λ (r : PolicyRule). rule_map_get matched r.rule_id ≡ some r) rs

Resolved-cons :
    (r : PolicyRule) (matched rs : List PolicyRule)
    → Resolved matched rs
    → Resolved (r ∷ matched) rs
unfolding rule_map_get
Resolved-cons r matched [] h = tt
Resolved-cons r matched (s ∷ rs) h = (ground arith, Resolved-cons r matched rs h.1)

distinct-Resolved : (rs : List PolicyRule) → distinct rs ≡ true → Resolved rs rs
unfolding distinct rule_map_get
distinct-Resolved [] h = tt
distinct-Resolved (r ∷ rs) h = (
  ground (arith, rule_map_get-none r.rule_id rs, eq_refl r.rule_id),
  Resolved-cons r rs rs (distinct-Resolved rs (ground arith)),
)

pub Resolved-violated :
    (context : PolicyContext) (matched rs : List PolicyRule)
    → Resolved matched rs
    → Resolved matched (violated context rs)
unfolding violated
Resolved-violated context matched [] h = tt
Resolved-violated context matched (r ∷ rs) h = elim (Bool-cases (satisfied context r)) [
  | inl good ↦ rw (good, violated) (Resolved-violated context matched rs h.1)
  | inr bad ↦ rw (bad, violated) (h.0, Resolved-violated context matched rs h.1)
]

-- Every violated rule is the one that its identifier leads to.
pub violated-Resolved :
    (context : PolicyContext) (rules : List PolicyRule)
    → distinct rules ≡ true
    → Resolved (match_rules context rules) (violated context (match_rules context rules))
violated-Resolved context rules h =
    let matched = match_rules context rules in
    Resolved-violated context matched matched
      (distinct-Resolved matched (distinct-match_rules context rules h))
