-- ===== src/ContextAssembly.antt =====
-- The assembly of a context within a budget: src/electripy/ai/context_assembly/ (services.py, domain.py).
-- A text and a tokenizer are those of the token budget; a position is that of a block in the list given.
mod Fit
mod Tests
use electripy_ai.Prelude.{
  ℕ, ◌+◌, Bool, true, false, String, List, [], ◌∷◌, map, ltb, leb, ◌==◌, ◌||◌, ◌&&◌, if◌then◌else◌,
}
use electripy_ai.TokenBudget.{Text, Tokenizer}

pub data ContextPriority : Type 0 where
  low medium high critical : ContextPriority

abbrev pub priority_value : ContextPriority → ℕ
priority_value low = 10
priority_value medium = 20
priority_value high = 30
priority_value critical = 40

pub record ContextBlock : Type 0 where
  pub label : String
  pub content : Text
  pub priority : ContextPriority
  pub token_count : ℕ

pub record AssembledContext : Type 0 where
  pub blocks : List ContextBlock
  pub total_tokens : ℕ
  pub dropped_labels : List String
  pub budget : ℕ

-- A block and its position, `idx`.
abbrev pub Counted : Type 0
Counted = ℕ × ContextBlock

unfoldable pub counted_from : Tokenizer → ℕ → List ContextBlock → List Counted
counted_from count idx [] = []
counted_from count idx (b ∷ bs) =
    (idx, record b { token_count = count b.content }) ∷ counted_from count (idx + 1) bs

-- Sorting by a key, where `before` compares the keys of two blocks of different positions.
unfoldable pub insert_by : (Counted → Counted → Bool) → Counted → List Counted → List Counted
insert_by before x [] = x ∷ []
insert_by before x (y ∷ ys) =
    let later = insert_by before x ys in if before y x then y ∷ later else x ∷ y ∷ ys

unfoldable pub sort_by : (Counted → Counted → Bool) → List Counted → List Counted
sort_by before [] = []
sort_by before (x ∷ xs) = insert_by before x (sort_by before xs)

-- The key `(-priority, idx)`.
unfoldable pub is_more_important : Counted → Counted → Bool
is_more_important x y =
    let p = priority_value x.1.priority in
    let q = priority_value y.1.priority in ltb q p || (p == q && ltb x.0 y.0)

unfoldable pub is_earlier : Counted → Counted → Bool
is_earlier x y = ltb x.0 y.0

pub record Packed : Type 0 where
  pub included : List Counted
  pub dropped : List String
  pub total : ℕ

abbrev pub included_block : Counted → Packed → Packed
included_block x p = record p { included = x ∷ p.included }

abbrev pub dropped_block : Counted → Packed → Packed
dropped_block x p = record p { dropped = x.1.label ∷ p.dropped }

-- The loop over the sorted blocks, from the `total` so far on.
unfoldable pub pack : ℕ → ℕ → List Counted → Packed
pack budget total [] = record { included = []; dropped = []; total = total }
pack budget total (x ∷ xs) =
    let taken = pack budget (total + x.1.token_count) xs in
    let skipped = pack budget total xs in
    if leb (total + x.1.token_count) budget then included_block x taken else dropped_block x skipped

unfoldable pub assemble_context : List ContextBlock → ℕ → Tokenizer → AssembledContext
assemble_context blocks budget count =
    let packed = pack budget 0 (sort_by is_more_important (counted_from count 0 blocks)) in
    record {
      blocks = map (λ (x : Counted). x.1) (sort_by is_earlier packed.included);
      total_tokens = packed.total;
      dropped_labels = packed.dropped;
      budget = budget;
    }
