-- ===== src/ConversationMemory.antt =====
-- Windows of a conversation: src/electripy/ai/conversation_memory/ (services.py, domain.py). A text and a
-- tokenizer are those of the token budget. `identity` stands for Python's `id` of a turn, an object
-- that windows share: a recount of its tokens, which the object keeps, is here a new turn of the same
-- identity. Metadata of a turn, which no code reads, is left out.
pub mod Trim
mod Tests
use electripy_ai.Prelude.{
  ℕ, ◌+◌, ◌-◌, Bool, true, false, not, ◌&&◌, ◌||◌, List, [], ◌∷◌, ◌++◌, map, length, drop, leb,
  ◌==◌, if◌then◌else◌,
}
use electripy_ai.TokenBudget.{Text, Tokenizer}

pub data TurnRole : Type 0 where
  user assistant system : TurnRole

pub record Turn : Type 0 where
  pub identity : ℕ
  pub role : TurnRole
  pub content : Text
  pub token_count : ℕ

pub record ConversationWindow : Type 0 where
  pub turns : List Turn
  pub total_tokens : ℕ

abbrev pub new_window : ConversationWindow
new_window = record { turns = []; total_tokens = 0 }

-- `sum(t.token_count for t in turns)`.
unfoldable pub sum_tokens : List Turn → ℕ
sum_tokens [] = 0
sum_tokens (t ∷ ts) = t.token_count + sum_tokens ts

-- `identity` is that of the turn that is made.
unfoldable pub append_turn :
    ConversationWindow → ℕ → TurnRole → Text → Tokenizer → ConversationWindow
append_turn window identity role content count =
    let turn : Turn = record {
      identity = identity;
      role = role;
      content = content;
      token_count = count content;
    } in
    record { turns = window.turns ++ turn ∷ []; total_tokens = window.total_tokens + count content }

-- `turns[-n:]`, where `-0` is 0.
unfoldable pub last_turns : ℕ → List Turn → List Turn
last_turns n turns = if n == 0 then turns else drop (length turns - n) turns

unfoldable pub recent_turns : ConversationWindow → ℕ → ConversationWindow
recent_turns window n =
    let kept = last_turns n window.turns in
    if leb (length window.turns) n
    then window
    else record { turns = kept; total_tokens = sum_tokens kept }

-- A count of 0 is taken for none.
unfoldable pub recounted : Tokenizer → Turn → Turn
recounted count t = if t.token_count == 0 then record t { token_count = count t.content } else t

unfoldable pub sliding_window : ConversationWindow → ℕ → Tokenizer → ConversationWindow
sliding_window window max_turns count =
    let kept = map (recounted count) (last_turns max_turns window.turns) in
    if leb (length window.turns) max_turns
    then window
    else record { turns = kept; total_tokens = sum_tokens kept }

unfoldable pub is_system : TurnRole → Bool
is_system system = true
is_system r = false

unfoldable pub select : (Turn → Bool) → List Turn → List Turn
select p [] = []
select p (t ∷ ts) = let rest = select p ts in if p t then t ∷ rest else rest

unfoldable pub is_preserved : Bool → Turn → Bool
is_preserved preserve_system t = preserve_system && is_system t.role

-- The loop from the newest turn on; `spent` is what `remaining_budget` lacks of the budget.
unfoldable pub keep_turns : ℕ → ℕ → List Turn → List Turn
keep_turns budget spent [] = []
keep_turns budget spent (t ∷ older) =
    let taken = keep_turns budget (spent + t.token_count) older in
    let skipped = keep_turns budget spent older in
    if leb (spent + t.token_count) budget then t ∷ taken else skipped

-- `id(t) in {id(t) for t in turns}`.
unfoldable pub has_identity : ℕ → List Turn → Bool
has_identity identity [] = false
has_identity identity (t ∷ ts) =
    let later = has_identity identity ts in if t.identity == identity then true else later

unfoldable pub merge_preserving_order : List Turn → List Turn → List Turn → List Turn
merge_preserving_order original system_turns others =
    select (λ t. has_identity t.identity system_turns || has_identity t.identity others) original

unfoldable pub reversed : List Turn → List Turn
reversed [] = []
reversed (t ∷ ts) = reversed ts ++ t ∷ []

unfoldable pub trim_to_budget : ConversationWindow → ℕ → Tokenizer → Bool → ConversationWindow
trim_to_budget window budget count preserve_system =
    let turns = map (recounted count) window.turns in
    let system_turns = select (is_preserved preserve_system) turns in
    let other_turns = select (λ t. not (is_preserved preserve_system t)) turns in
    let kept = keep_turns budget (sum_tokens system_turns) (reversed other_turns) in
    let final = merge_preserving_order turns system_turns (reversed kept) in
    record { turns = final; total_tokens = sum_tokens final }
