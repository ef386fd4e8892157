-- ===== src/LlmGateway/Client/Admission.antt =====
-- What reaches the port (src/electripy/ai/llm_gateway/services.py).
use electripy_ai.Prelude.{
  ℕ, ◌≤◌, ◌≡◌, refl, subst, ◌⊎◌, inl, inr, String, true, Option, none, some, List, ◌∷◌, arith, ltb,
  Bool-cases,
}
use electripy_ai.LlmGateway.Domain.{
  LlmMessage, system, StructuredOutputSpec, LlmRequest, clone_with_messages, GuardResult,
  LlmGatewaySettings,
}
use electripy_ai.LlmGateway.Client.{
  Env, count_input_chars, max_input_chars_of, enforce_token_budget, assessed, maybe_guard, call,
  respond, guarded, budgeted, hook_request, hooked, complete,
}
use electripy_ai.LlmGateway.Client.Kept.{Survives, kept-call, kept-respond}

-- The guard, if there is one, allows the messages.
abbrev pub Allowed : Option (List LlmMessage → GuardResult) → List LlmMessage → Type 0
Allowed none messages = Unit
Allowed (some assess) messages = (assess messages).allowed ≡ true

-- The request hook's result, within its budget and allowed by the guard.
abbrev pub Admitted : LlmGatewaySettings → LlmRequest → LlmRequest → Type 0
Admitted settings request base =
    (hook_request settings.request_hook request ≡ some base)
    × (count_input_chars base.messages ≤ max_input_chars_of settings base)
    × Allowed settings.prompt_guard base.messages

-- An admitted request, as it is or after one system message.
abbrev pub Sendable : LlmGatewaySettings → LlmRequest → LlmRequest → Type 0
Sendable settings request q =
    (base : LlmRequest) × Admitted settings request base
    × ((q ≡ base)
        ⊎ ((text : String) × (q ≡ clone_with_messages base (system text ∷ base.messages))))

module _ {W : Type 0} (env : Env W) (settings : LlmGatewaySettings) (P : W → Type 0)
    (request : LlmRequest) (s : Survives env P (Sendable settings request)) where
  kept-admitted :
      (base : LlmRequest)
      → Admitted settings request base
      → (started_at : ℕ) (spec : Option StructuredOutputSpec) (guard : Option GuardResult) (w : W)
      → P w
      → P (respond env settings started_at base guard (call env settings spec base w)).1
  kept-admitted base a started_at spec guard w p =
      kept-respond env settings P (Sendable settings request) s started_at base guard
        (call env settings spec base w)
        (kept-call env settings P (Sendable settings request) s base (base, a, inl refl)
          (λ text. (base, a, inr (text, refl))) spec w p)

  kept-guarded :
      (base : LlmRequest)
      → hook_request settings.request_hook request ≡ some base
      → count_input_chars base.messages ≤ max_input_chars_of settings base
      → (started_at : ℕ) (spec : Option StructuredOutputSpec)
        (guard : Option (List LlmMessage → GuardResult)) (w : W)
      → guard ≡ settings.prompt_guard
      → P w
      → P (guarded env settings started_at spec base (maybe_guard guard base) w).1
  unfolding guarded maybe_guard assessed
  kept-guarded base h b started_at spec none w e p =
      kept-admitted base (h, b, subst (λ g. Allowed g base.messages) e tt) started_at spec none w p
  kept-guarded base h b started_at spec (some assess) w e p =
      elim (Bool-cases (assess base.messages).allowed) [
        | inl allows ↦ simp allows (
            kept-admitted base (h, b, subst (λ g. Allowed g base.messages) e allows) started_at spec
              (some (assess base.messages)) w p)
        | inr refuses ↦ rw refuses p
      ]

  kept-hooked :
      (started_at : ℕ) (spec : Option StructuredOutputSpec) (hooked_request : Option LlmRequest)
      (w : W)
      → hook_request settings.request_hook request ≡ hooked_request
      → P w
      → P (hooked env settings started_at spec hooked_request w).1
  unfolding hooked budgeted enforce_token_budget
  kept-hooked started_at spec none w h p = p
  kept-hooked started_at spec (some base) w h p =
      elim (Bool-cases (ltb (max_input_chars_of settings base) (count_input_chars base.messages))) [
        | inl long ↦ rw long p
        | inr fits ↦ rw fits (
            kept-guarded base h (ground (arith, fits)) started_at spec settings.prompt_guard w refl
              p)
      ]

-- A completion keeps every property of the world that the clock, pauses and the call hook keep, and
-- that the sending of such a request keeps: the request hook's result, within the budget of input
-- characters and allowed by the guard, as it is or after one system message.
pub complete_admitted :
    {W : Type 0} (env : Env W) (settings : LlmGatewaySettings) (P : W → Type 0)
    (spec : Option StructuredOutputSpec) (request : LlmRequest) (w : W)
    → Survives env P (Sendable settings request)
    → P w
    → P (complete env settings spec request w).1
unfolding complete
complete_admitted env settings P spec request w s p =
    let (started_at, w1) = env.now w in
    kept-hooked env settings P request s started_at spec
      (hook_request settings.request_hook request) w1 refl (s.now w p)
