-- ===== src/ContextAssembly/Fit.antt =====
-- An assembled context keeps its budget (src/electripy/ai/context_assembly/services.py).
use electripy_ai.Prelude.{
  ℕ, suc, ◌+◌, ◌≤◌, ◌≡◌, refl, ap, ◌∙◌, Bool, List, [], ◌∷◌, map, length, leb, by_cases, arith,
}
use electripy_ai.TokenBudget.{Tokenizer}
use electripy_ai.ContextAssembly.{
  ContextBlock, Counted, counted_from, insert_by, sort_by, is_more_important, is_earlier, Packed,
  pack, assemble_context,
}

abbrev sum_blocks : List ContextBlock → ℕ
sum_blocks [] = 0
sum_blocks (b ∷ bs) = b.token_count + sum_blocks bs

abbrev block_of : Counted → ContextBlock
block_of x = x.1

insert_by-sum :
    (before : Counted → Counted → Bool) (x : Counted) (xs : List Counted)
    → sum_blocks (map block_of (insert_by before x xs))
      ≡ x.1.token_count + sum_blocks (map block_of xs)
unfolding insert_by
insert_by-sum before x [] = refl
insert_by-sum before x (y ∷ ys) =
    by_cases
      (λ (zs : List Counted).
        sum_blocks (map block_of zs) ≡ x.1.token_count + sum_blocks (map block_of (y ∷ ys)))
      (before y x) (λ e. omega (arith, insert_by-sum before x ys)) (λ e. refl)

sort_by-sum :
    (before : Counted → Counted → Bool) (xs : List Counted)
    → sum_blocks (map block_of (sort_by before xs)) ≡ sum_blocks (map block_of xs)
unfolding sort_by
sort_by-sum before [] = refl
sort_by-sum before (x ∷ xs) =
    omega (arith, insert_by-sum before x (sort_by before xs), sort_by-sum before xs)

length-insert_by :
    (before : Counted → Counted → Bool) (x : Counted) (xs : List Counted)
    → length (insert_by before x xs) ≡ suc (length xs)
unfolding insert_by
length-insert_by before x [] = refl
length-insert_by before x (y ∷ ys) =
    by_cases (λ (zs : List Counted). length zs ≡ suc (suc (length ys))) (before y x)
      (λ e. ap suc (length-insert_by before x ys)) (λ e. refl)

length-sort_by :
    (before : Counted → Counted → Bool) (xs : List Counted) → length (sort_by before xs) ≡ length xs
unfolding sort_by
length-sort_by before [] = refl
length-sort_by before (x ∷ xs) =
    length-insert_by before x (sort_by before xs) ∙ ap suc (length-sort_by before xs)

length-counted_from :
    (count : Tokenizer) (idx : ℕ) (bs : List ContextBlock)
    → length (counted_from count idx bs) ≡ length bs
unfolding counted_from
length-counted_from count idx [] = refl
length-counted_from count idx (b ∷ bs) = ap suc (length-counted_from count (idx + 1) bs)

length-blocks : (xs : List Counted) → length (map block_of xs) ≡ length xs
length-blocks [] = refl
length-blocks (x ∷ xs) = ap suc (length-blocks xs)

-- What a run of the loop from `total` on has packed.
record Fits (budget total : ℕ) (xs : List Counted) (p : Packed) : Type 0 where
  in_budget : p.total ≤ budget
  total_is : p.total ≡ total + sum_blocks (map block_of p.included)
  all_blocks : length p.included + length p.dropped ≡ length xs

pack-Fits :
    (budget total : ℕ) (xs : List Counted)
    → total ≤ budget
    → Fits budget total xs (pack budget total xs)
unfolding pack
pack-Fits budget total [] h = record { in_budget = h; total_is = omega arith; all_blocks = refl }
pack-Fits budget total (x ∷ xs) h =
    let more = total + x.1.token_count in
    by_cases (Fits budget total (x ∷ xs)) (leb more budget)
      (λ e.
        let f = pack-Fits budget more xs (ground (arith, e)) in
        record {
          in_budget = f.in_budget;
          total_is = omega (arith, f.total_is);
          all_blocks = omega (arith, f.all_blocks);
        })
      (λ e.
        let f = pack-Fits budget total xs h in
        record {
          in_budget = f.in_budget;
          total_is = f.total_is;
          all_blocks = omega (arith, f.all_blocks);
        })

-- An assembled context is within its budget, its total is that of the tokens of its blocks, and each
-- block that is given is either in it or dropped.
assemble_context_fits :
    (blocks : List ContextBlock) (budget : ℕ) (count : Tokenizer)
    → let c = assemble_context blocks budget count in
      (c.total_tokens ≤ budget)
      × (c.total_tokens ≡ sum_blocks c.blocks)
      × (length c.blocks + length c.dropped_labels ≡ length blocks)
unfolding assemble_context
assemble_context_fits blocks budget count =
    let counted = counted_from count 0 blocks in
    let sorted = sort_by is_more_important counted in
    let packed = pack budget 0 sorted in
    let f = pack-Fits budget 0 sorted (omega arith) in
    (
      f.in_budget,
      omega (arith, f.total_is, sort_by-sum is_earlier packed.included),
      omega (
        arith,
        f.all_blocks,
        length-blocks (sort_by is_earlier packed.included),
        length-sort_by is_earlier packed.included,
        length-sort_by is_more_important counted,
        length-counted_from count 0 blocks,
      ),
    )
