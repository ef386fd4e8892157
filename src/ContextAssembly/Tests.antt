-- ===== src/ContextAssembly/Tests.antt =====
-- A concrete assembly of src/electripy/ai/context_assembly/services.py.
use electripy_ai.Prelude.{ℕ, ◌≡◌, refl, String, [], ◌∷◌, length}
use electripy_ai.ContextAssembly.{
  ContextPriority, low, high, critical, ContextBlock, counted_from, insert_by, sort_by,
  is_more_important, is_earlier, pack, assemble_context,
}

program : Unit {0}
unfolding counted_from insert_by sort_by is_more_important is_earlier pack assemble_context
program = tt

abbrev block : String → ContextPriority → ℕ → ContextBlock
block name priority n = record {
  label = name;
  content = 1 ∷ 2 ∷ [];
  priority = priority;
  token_count = n;
}

abbrev long_block : ContextBlock
long_block = record {
  label = "long";
  content = 1 ∷ 2 ∷ 3 ∷ 4 ∷ [];
  priority = high;
  token_count = 0;
}

-- The block of high priority is dropped, that of low priority is kept; the order is that of the list.
assembled_run :
    assemble_context (block "docs" low 0 ∷ long_block ∷ block "system" critical 0 ∷ []) 5 length
    ≡ record {
      blocks = block "docs" low 2 ∷ block "system" critical 2 ∷ [];
      total_tokens = 4;
      dropped_labels = "long" ∷ [];
      budget = 5;
    }
unfolding program
assembled_run = refl
