-- ===== src/ConversationMemory/Trim.antt =====
-- What trimming to a budget keeps (src/electripy/ai/conversation_memory/services.py).
use electripy_ai.Prelude.{
  ℕ, ◌+◌, ◌-◌, ◌≤◌, ◌≡◌, ◌≢◌, refl, sym, ap, ◌∙◌, Bool, true, not, ◌||◌, List, [], ◌∷◌, ◌++◌, map,
  All, All-append, by_cases, leb, ◌==◌, arith,
}
use electripy_ai.TokenBudget.{Tokenizer}
use electripy_ai.ConversationMemory.{
  Turn, ConversationWindow, sum_tokens, recounted, select, is_preserved, keep_turns, has_identity,
  merge_preserving_order, reversed, trim_to_budget,
}

-- No object stands twice in a window.
abbrev pub Distinct : List Turn → Type 0
Distinct [] = Unit
Distinct (t ∷ ts) = All (λ s. s.identity ≢ t.identity) ts × Distinct ts

module _ {A : Type 0} {P Q R : A → Type 0} where
  All-zip : (f : (x : A) → P x → Q x → R x) (xs : List A) → All P xs → All Q xs → All R xs
  All-zip f [] p q = tt
  All-zip f (x ∷ xs) p q = (f x p.0 q.0, All-zip f xs p.1 q.1)

All-imp :
    {A : Type 0} {P Q : A → Type 0} (f : (x : A) → P x → Q x) (xs : List A) → All P xs → All Q xs
All-imp f xs p = All-zip (λ x a b. f x a) xs p p

module _ (P : Turn → Type 0) where
  All-select : (p : Turn → Bool) (ts : List Turn) → All P ts → All P (select p ts)
  unfolding select
  All-select p [] h = tt
  All-select p (t ∷ ts) h =
      by_cases (All P) (p t) (λ e. (h.0, All-select p ts h.1)) (λ e. All-select p ts h.1)

  All-reversed : (ts : List Turn) → All P ts → All P (reversed ts)
  unfolding reversed
  All-reversed [] h = tt
  All-reversed (t ∷ ts) h = All-append P (reversed ts) (t ∷ []) (All-reversed ts h.1) (h.0, tt)

  All-keep_turns :
      (budget spent : ℕ) (ts : List Turn) → All P ts → All P (keep_turns budget spent ts)
  unfolding keep_turns
  All-keep_turns budget spent [] h = tt
  All-keep_turns budget spent (t ∷ ts) h =
      by_cases (All P) (leb (spent + t.token_count) budget)
        (λ e. (h.0, All-keep_turns budget (spent + t.token_count) ts h.1))
        (λ e. All-keep_turns budget spent ts h.1)

sum-append : (xs ys : List Turn) → sum_tokens (xs ++ ys) ≡ sum_tokens xs + sum_tokens ys
unfolding sum_tokens
sum-append [] ys = omega arith
sum-append (x ∷ xs) ys = omega (arith, sum-append xs ys)

sum-reversed : (ts : List Turn) → sum_tokens (reversed ts) ≡ sum_tokens ts
unfolding sum_tokens reversed
sum-reversed [] = refl
sum-reversed (t ∷ ts) = omega (arith, sum-append (reversed ts) (t ∷ []), sum-reversed ts)

sum-keep_turns :
    (budget spent : ℕ) (ts : List Turn) → sum_tokens (keep_turns budget spent ts) ≤ budget - spent
unfolding sum_tokens keep_turns
sum-keep_turns budget spent [] = omega arith
sum-keep_turns budget spent (t ∷ ts) =
    let taken = sum-keep_turns budget (spent + t.token_count) ts in
    let skipped = sum-keep_turns budget spent ts in
    by_cases (λ (k : List Turn). sum_tokens k ≤ budget - spent) (leb (spent + t.token_count) budget)
      (λ e. ground (arith, e, taken)) (λ e. skipped)

sum-or :
    (p q : Turn → Bool) (ts : List Turn)
    → sum_tokens (select (λ t. p t || q t) ts) ≤ sum_tokens (select p ts) + sum_tokens (select q ts)
unfolding sum_tokens select
sum-or p q [] = omega arith
sum-or p q (t ∷ ts) = ground (arith, sum-or p q ts)

-- A turn of the same identity has the same count.
abbrev Agrees : Turn → Turn → Type 0
Agrees u t = t.identity ≡ u.identity → t.token_count ≡ u.token_count

absent :
    (i : ℕ) (ts : List Turn)
    → All (λ s. s.identity ≢ i) ts
    → sum_tokens (select (λ t. i == t.identity) ts) ≡ 0
unfolding sum_tokens select
absent i [] h = refl
absent i (t ∷ ts) h = ground (arith, h.0, absent i ts h.1)

once :
    (u : Turn) (ts : List Turn)
    → Distinct ts
    → All (Agrees u) ts
    → sum_tokens (select (λ t. u.identity == t.identity) ts) ≤ u.token_count
unfolding sum_tokens select
once u [] d h = omega arith
once u (t ∷ ts) d h =
    let i = u.identity in
    by_cases (λ (k : List Turn). sum_tokens k ≤ u.token_count) (i == t.identity)
      (λ e.
        let same : t.identity ≡ i = ground (arith, e) in
        ground
          (arith, h.0 same, absent i ts (All-imp (λ s ne same'. ne (same' ∙ sym same)) ts d.0)))
      (λ e. once u ts d.1 h.1)

sum-either :
    (u : Turn) (us ts : List Turn)
    → sum_tokens (select (λ t. has_identity t.identity (u ∷ us)) ts)
      ≤ sum_tokens (select (λ t. u.identity == t.identity) ts)
        + sum_tokens (select (λ t. has_identity t.identity us) ts)
unfolding sum_tokens select has_identity
sum-either u us [] = omega arith
sum-either u us (t ∷ ts) = ground (arith, sum-either u us ts)

none_selected : (ts : List Turn) → sum_tokens (select (λ t. has_identity t.identity []) ts) ≡ 0
unfolding sum_tokens select has_identity
none_selected [] = refl
none_selected (t ∷ ts) = none_selected ts

sum-has_identity :
    (us ts : List Turn)
    → Distinct ts
    → All (λ u. All (Agrees u) ts) us
    → sum_tokens (select (λ t. has_identity t.identity us) ts) ≤ sum_tokens us
unfolding sum_tokens
sum-has_identity [] ts d h = omega (arith, none_selected ts)
sum-has_identity (u ∷ us) ts d h =
    omega (arith, sum-either u us ts, once u ts d h.0, sum-has_identity us ts d h.1)

-- In a window where no object stands twice, every turn agrees with every other.
all_agree : (ts : List Turn) → Distinct ts → All (λ u. All (Agrees u) ts) ts
all_agree [] d = tt
all_agree (t ∷ ts) d = (
  (λ e. refl, All-imp (λ s ne e. absurd (ne e)) ts d.0),
  All-zip (λ u ne agree. (λ e. absurd (ne (sym e)), agree)) ts d.0 (all_agree ts d.1),
)

identity-recounted : (count : Tokenizer) (t : Turn) → (recounted count t).identity ≡ t.identity
unfolding recounted
identity-recounted count t =
    by_cases (λ (s : Turn). s.identity ≡ t.identity) (t.token_count == 0) (λ e. refl) (λ e. refl)

module _ {A : Type 0} (P Q : A → Type 0) where
  All-map : (f : A → A) (h : (x : A) → P x → Q (f x)) (xs : List A) → All P xs → All Q (map f xs)
  All-map f h [] p = tt
  All-map f h (x ∷ xs) p = (h x p.0, All-map f h xs p.1)

Distinct-recounted :
    (count : Tokenizer) (ts : List Turn) → Distinct ts → Distinct (map (recounted count) ts)
Distinct-recounted count [] d = tt
Distinct-recounted count (t ∷ ts) d = (
  All-map (λ s. s.identity ≢ t.identity) (λ s. s.identity ≢ (recounted count t).identity)
      (recounted count)
      (λ s ne e. ne (sym (identity-recounted count s) ∙ e ∙ identity-recounted count t)) ts d.0,
  Distinct-recounted count ts d.1,
)

-- What is chosen is found.
found :
    (p : Turn → Bool) (ts : List Turn)
    → All (λ t. p t ≡ true → has_identity t.identity (select p ts) ≡ true) ts
unfolding select has_identity
found p [] = tt
found p (t ∷ ts) =
    (λ e. ground (arith, e), All-imp (λ s later e. ground (arith, later e)) ts (found p ts))

-- In a window where no object stands twice: the tokens of the trimmed window are at most the budget or,
-- where that is more, those of the turns that are preserved, and each of these turns is in the trimmed window.
pub trim_fits :
    (window : ConversationWindow) (budget : ℕ) (count : Tokenizer) (preserve_system : Bool)
    → Distinct window.turns
    → let turns = map (recounted count) window.turns in
      let preserved = sum_tokens (select (is_preserved preserve_system) turns) in
      let trimmed = trim_to_budget window budget count preserve_system in
      (trimmed.total_tokens ≤ preserved + (budget - preserved))
      × All
          (λ t.
            is_preserved preserve_system t ≡ true → has_identity t.identity trimmed.turns ≡ true)
          turns
unfolding trim_to_budget merge_preserving_order
trim_fits window budget count preserve_system distinct =
    let turns = map (recounted count) window.turns in
    let d = Distinct-recounted count window.turns distinct in
    let systems = select (is_preserved preserve_system) turns in
    let others = select (λ t. not (is_preserved preserve_system t)) turns in
    let kept = keep_turns budget (sum_tokens systems) (reversed others) in
    let Agree : Turn → Type 0 = λ u. All (Agrees u) turns in
    let agree = all_agree turns d in
    let of_systems = All-select Agree (is_preserved preserve_system) turns agree in
    let of_others = All-select Agree (λ t. not (is_preserved preserve_system t)) turns agree in
    let of_kept = All-reversed Agree kept (
      All-keep_turns Agree budget (sum_tokens systems) (reversed others)
        (All-reversed Agree others of_others)) in
    let in_systems : Turn → Bool = λ t. has_identity t.identity systems in
    let in_kept : Turn → Bool = λ t. has_identity t.identity (reversed kept) in
    (
      omega (
        arith,
        sum-or in_systems in_kept turns,
        sum-has_identity systems turns d of_systems,
        sum-has_identity (reversed kept) turns d of_kept,
        sum-reversed kept,
        sum-keep_turns budget (sum_tokens systems) (reversed others),
      ),
      All-zip (λ t f g e. g (ap (λ b. b || in_kept t) (f e))) turns
          (found (is_preserved preserve_system) turns)
          (found (λ t. in_systems t || in_kept t) turns),
    )
