-- ===== src/Policy/Engine/Packs.antt =====
-- Loading packs of rules (`PolicyEngine.load_pack` of src/electripy/ai/policy/services.py).
use text.Mathlib.Text.{◌==◌ as str_eq}
use electripy_ai.Prelude.{
  ◌≡◌, refl, ◌∙◌, ap, String, Bool, true, false, not, ◌&&◌, ◌||◌, none, List, [], ◌∷◌, ◌++◌, arith,
  append_assoc, append-nil, sym, if◌then◌else◌,
}
use electripy_ai.Policy.Domain.{PolicyRule, PolicyPack}
use electripy_ai.Policy.Evaluator.{is_empty}
use electripy_ai.Policy.Store.{PolicyEngine, listed, list_rules, add_rule, is_ok}
use electripy_ai.Policy.Engine.{known, repeats, load_rules, load_pack}

-- A stored rule that is enabled has the identifier.
pub in_use : List PolicyRule → String → Bool
in_use [] id = false
in_use (rule ∷ rules) id = rule.enabled && str_eq rule.rule_id id || in_use rules id

-- The rules before the first whose identifier is in use.
pub before_clash : List PolicyRule → List PolicyRule → List PolicyRule
before_clash stored [] = []
before_clash stored (rule ∷ rules) =
    let rest = before_clash stored rules in if in_use stored rule.rule_id then [] else rule ∷ rest

-- No identifier of the rules is in use.
pub clear : List PolicyRule → List PolicyRule → Bool
clear stored [] = true
clear stored (rule ∷ rules) = not (in_use stored rule.rule_id) && clear stored rules

known-list_rules :
    (id : String) (rules : List PolicyRule) → known (list_rules none rules) id ≡ in_use rules id
unfolding known list_rules listed in_use
known-list_rules id [] = refl
known-list_rules id (r ∷ rs) = ground (arith, known-list_rules id rs)

module _ (stored : List PolicyRule) where
  ok-load_rules :
      (rules : List PolicyRule) (e : PolicyEngine)
      → is_ok (load_rules (list_rules none stored) rules e).0 ≡ clear stored rules
  unfolding load_rules clear
  ok-load_rules [] e = refl
  ok-load_rules (r ∷ rs) e =
      ground (arith, known-list_rules r.rule_id stored, ok-load_rules rs (add_rule r e))

  rules-load_rules :
      (rules : List PolicyRule) (e : PolicyEngine)
      → (load_rules (list_rules none stored) rules e).1
        ≡ record e { rules = e.rules ++ before_clash stored rules }
  unfolding load_rules before_clash add_rule
  rules-load_rules [] e = ap (λ rs. record e { rules = rs }) (sym (append-nil e.rules))
  rules-load_rules (r ∷ rs) e = ground (
    arith,
    known-list_rules r.rule_id stored,
    rules-load_rules rs (add_rule r e)
        ∙ ap (λ rs. record e { rules = rs })
            (append_assoc e.rules (r ∷ []) (before_clash stored rs)),
    append-nil e.rules,
  )

-- A pack is loaded exactly when it has rules, no two of one identifier, and none whose identifier an
-- enabled stored rule has: a disabled rule of that identifier does not stand in its way.
load_pack_accepts :
    (pack : PolicyPack) (e : PolicyEngine)
    → is_ok (load_pack pack e).0
      ≡ (not (is_empty pack.rules) && (not (repeats pack.rules) && clear e.rules pack.rules))
unfolding load_pack
load_pack_accepts pack e = ground (arith, ok-load_rules e.rules pack.rules e)

-- Loading is not all or nothing: whether it succeeds or raises, a pack that has rules, no two of one
-- identifier, leaves in the repository all its rules before the first that conflicts.
load_pack_keeps :
    (pack : PolicyPack) (e : PolicyEngine)
    → is_empty pack.rules ≡ false
    → repeats pack.rules ≡ false
    → (load_pack pack e).1 ≡ record e { rules = e.rules ++ before_clash e.rules pack.rules }
unfolding load_pack
load_pack_keeps pack e some_rules no_twins = ground (arith, rules-load_rules e.rules pack.rules e)
