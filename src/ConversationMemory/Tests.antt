-- ===== src/ConversationMemory/Tests.antt =====
-- Concrete windows of src/electripy/ai/conversation_memory/services.py.
use electripy_ai.Prelude.{ℕ, ◌+◌, ◌-◌, ◌≤◌, ◌≡◌, refl, true, [], ◌∷◌, map, All, length, arith}
use electripy_ai.ConversationMemory.{
  TurnRole, user, assistant, system, Turn, ConversationWindow, new_window, append_turn, sum_tokens,
  last_turns, recent_turns, recounted, sliding_window, is_system, is_preserved, select, keep_turns,
  has_identity, merge_preserving_order, reversed, trim_to_budget,
}
use electripy_ai.ConversationMemory.Trim.{trim_fits}

program : Unit {0}
unfolding append_turn sum_tokens last_turns recent_turns recounted sliding_window is_system
    is_preserved select keep_turns has_identity merge_preserving_order reversed trim_to_budget
program = tt

abbrev turn : ℕ → TurnRole → ℕ → Turn
turn i role tokens = record {
  identity = i;
  role = role;
  content = 1 ∷ 2 ∷ [];
  token_count = tokens;
}

abbrev talk : ConversationWindow
talk = record {
  turns = turn 0 system 3 ∷ turn 1 user 1 ∷ turn 2 assistant 0 ∷ turn 3 user 9 ∷ turn 4 user 2 ∷ [];
  total_tokens = 15;
}

-- The newest turn that is too large is left out, and older ones are kept.
trimmed_run : trim_to_budget talk 8 length true ≡ record {
  turns = turn 0 system 3 ∷ turn 1 user 1 ∷ turn 2 assistant 2 ∷ turn 4 user 2 ∷ [];
  total_tokens = 8;
}
unfolding program
trimmed_run = refl

-- The system turn alone exceeds this budget.
exceeding_run : (trim_to_budget talk 2 length true).total_tokens ≡ 3
unfolding program
exceeding_run = refl

-- Of the last 0 turns all are kept.
recent_run : (recent_turns talk 0).turns ≡ talk.turns
unfolding program
recent_run = refl

recent_two_run : (recent_turns talk 2).turns ≡ turn 3 user 9 ∷ turn 4 user 2 ∷ []
unfolding program
recent_two_run = refl

sliding_run : (sliding_window talk 3 length).total_tokens ≡ 13
unfolding program
sliding_run = refl

appended_run : (append_turn new_window 0 user (7 ∷ []) length).total_tokens ≡ 1
unfolding program
appended_run = refl

trim_fits_example :
    ((trim_to_budget talk 8 length true).total_tokens ≤ 3 + (8 - 3))
    × All
        (λ t.
          is_preserved true t ≡ true
          → has_identity t.identity (trim_to_budget talk 8 length true).turns ≡ true)
        (map (recounted length) talk.turns)
unfolding program
trim_fits_example = trim_fits talk 8 length true (
  (
    λ h. ground (arith, h),
    (λ h. ground (arith, h), (λ h. ground (arith, h), (λ h. ground (arith, h), tt))),
  ),
  (
    (λ h. ground (arith, h), (λ h. ground (arith, h), (λ h. ground (arith, h), tt))),
    (
      (λ h. ground (arith, h), (λ h. ground (arith, h), tt)),
      ((λ h. ground (arith, h), tt), (tt, tt)),
    ),
  ),
)
