-- ===== src/LlmGateway/Client/Structured.antt =====
-- What the structured mode returns (src/electripy/ai/llm_gateway/services.py).
use electripy_ai.Prelude.{
  ℕ, zero, suc, ◌+◌, ◌≡◌, refl, ◌∙◌, ap, subst, String, true, Option, none, some, List, [], ◌∷◌,
  ◌++◌, arith,
}
use electripy_ai.Prelude.Names.{Names}
use electripy_ai.Prelude.Json.{Json, object, Fields}
use electripy_ai.LlmGateway.Domain.{
  FieldType, StructuredOutputSpec, LlmRequest, GuardResult, LlmResponse, LlmGatewaySettings,
  ValidationError,
}
use electripy_ai.LlmGateway.Validation.{
  has_type, value_of, field_errors, fields_errors, validate_structured_output,
}
use electripy_ai.LlmGateway.Client.{
  Env, Outcome, ok, raise, Round, done, repair, validated, parsed_round, structured_round,
  structured_request, call_with_retry, structured_loop, max_repairs, complete_structured, call,
  noted, deliver, hook_response, respond, enforce_token_budget, maybe_guard, Guarded, admitted,
  rejected, guarded, budgeted, hook_request, hooked, complete,
}

-- Every field of the specification is there, with a value of its type.
abbrev pub Conforms : Names FieldType → Fields → Type 0
Conforms [] fs = Unit
Conforms ((key, t) ∷ rest) fs =
    ((v : Json) × (value_of key fs ≡ some v) × (has_type t v ≡ true)) × Conforms rest fs

field-conforms :
    (key : String) (t : FieldType) (o : Option Json)
    → field_errors key t o ≡ []
    → (v : Json) × (o ≡ some v) × (has_type t v ≡ true)
unfolding field_errors
field-conforms key t none e = absurd (ground (arith, e))
field-conforms key t (some v) e = (v, refl, ground (arith, e))

append-nil_left : (xs ys : List ValidationError) → xs ++ ys ≡ [] → (xs ≡ []) × (ys ≡ [])
append-nil_left [] ys e = (refl, e)
append-nil_left (x ∷ xs) ys e = absurd (ground (arith, e))

fields-Conforms :
    (types : Names FieldType) (fs : Fields) → fields_errors types fs ≡ [] → Conforms types fs
unfolding fields_errors
fields-Conforms [] fs e = tt
fields-Conforms ((key, t) ∷ rest) fs e =
    let (first, others) =
      append-nil_left (field_errors key t (value_of key fs)) (fields_errors rest fs) e in
    (field-conforms key t (value_of key fs) first, fields-Conforms rest fs others)

validate-Conforms :
    (parsed : Json) (spec : StructuredOutputSpec)
    → validate_structured_output parsed spec ≡ []
    → (fs : Fields) × (parsed ≡ object fs) × Conforms spec.field_types fs
unfolding validate_structured_output
validate-Conforms (object fs) spec e = (fs, refl, fields-Conforms spec.field_types fs e)
validate-Conforms parsed spec e = absurd (ground (arith, e))

module _ {W : Type 0} (env : Env W) (settings : LlmGatewaySettings)
    (spec : StructuredOutputSpec) where
  -- The response carries the object that its text parses to, and this conforms.
  abbrev pub Faithful : LlmResponse → Type 0
  Faithful r =
      (fs : Fields) × (r.raw_json ≡ some (object fs))
      × (env.parse_json r.text ≡ some (object fs))
      × Conforms spec.field_types fs

  abbrev FaithfulOutcome : Outcome → Type 0
  FaithfulOutcome (ok r) = Faithful r
  FaithfulOutcome (raise e) = Unit

  abbrev FaithfulRound : Round → Type 0
  FaithfulRound (done o) = FaithfulOutcome o
  FaithfulRound (repair raw errors) = Unit

  Faithful-validated :
      (attempts : ℕ) (r : LlmResponse) (parsed : Json) (errors : List ValidationError)
      → env.parse_json r.text ≡ some parsed
      → validate_structured_output parsed spec ≡ errors
      → FaithfulRound (validated env settings spec attempts r parsed errors)
  unfolding validated
  Faithful-validated attempts r parsed (x ∷ xs) p e = tt
  Faithful-validated attempts r parsed [] p e =
      let (fs, same, conforms) = validate-Conforms parsed spec e in
      (fs, ap some same, p ∙ ap some same, conforms)

  Faithful-parsed_round :
      (attempts : ℕ) (r : LlmResponse) (parsed : Option Json)
      → env.parse_json r.text ≡ parsed
      → FaithfulRound (parsed_round env settings spec attempts r parsed)
  unfolding parsed_round
  Faithful-parsed_round attempts r none p = tt
  Faithful-parsed_round attempts r (some parsed) p =
      Faithful-validated attempts r parsed (validate_structured_output parsed spec) p refl

  Faithful-structured_round :
      (attempts : ℕ) (o : Outcome) → FaithfulRound (structured_round env settings spec attempts o)
  unfolding structured_round
  Faithful-structured_round attempts (raise e) = tt
  Faithful-structured_round attempts (ok r) =
      Faithful-parsed_round attempts r (env.parse_json r.text) refl

  Faithful-structured_loop :
      (left attempts : ℕ) (last_raw : Option String) (errors : List ValidationError)
      (base : LlmRequest) (w : W)
      → FaithfulOutcome (structured_loop env settings spec left attempts last_raw errors base w).0
  unfolding structured_loop
  Faithful-structured_loop zero attempts last_raw errors base w = tt
  Faithful-structured_loop (suc left) attempts last_raw errors base w =
      let request = structured_request env settings spec attempts last_raw base in
      let (outcome, w1) = call_with_retry env settings request w in
      go (structured_round env settings spec attempts outcome) w1
        (Faithful-structured_round attempts outcome)
        (λ raw errors' v. Faithful-structured_loop left (attempts + 1) (some raw) errors' base v)
    where
      go :
          (round : Round) (v : W)
          → FaithfulRound round
          → ((raw : String) (errors' : List ValidationError) (v : W)
              → FaithfulOutcome
                  (structured_loop env settings spec left
                    (attempts + 1)
                    (some raw)
                    errors'
                    base
                    v).0)
          → let ended : Outcome × W = elim round [
            | done result ↦ (result, v)
            | repair raw errors' ↦
                structured_loop env settings spec left (attempts + 1) (some raw) errors' base v
          ] in
            FaithfulOutcome ended.0
      go (done result) v f rest = f
      go (repair raw errors') v f rest = rest raw errors' v

  Faithful-noted :
      (guard : Option GuardResult) (r : LlmResponse)
      → Faithful r
      → Faithful (noted env settings guard r)
  unfolding noted
  Faithful-noted none r f = f
  Faithful-noted (some g) r f = f

  module _ (no_hook : settings.response_hook ≡ none) where
    Faithful-respond :
        (started_at : ℕ) (request : LlmRequest) (guard : Option GuardResult) (x : Outcome × W)
        → FaithfulOutcome x.0
        → FaithfulOutcome (respond env settings started_at request guard x).0
    unfolding respond deliver hook_response noted
    Faithful-respond started_at request guard (raise e, w) f = tt
    Faithful-respond started_at request guard (ok r, w) f = rw no_hook (Faithful-noted guard r f)

    Faithful-guarded :
        (started_at : ℕ) (request : LlmRequest) (g : Guarded) (w : W)
        → FaithfulOutcome (guarded env settings started_at (some spec) request g w).0
    unfolding guarded call complete_structured
    Faithful-guarded started_at request (rejected reasons) w = tt
    Faithful-guarded started_at request (admitted result) w =
        Faithful-respond started_at request result (complete_structured env settings request spec w)
          (Faithful-structured_loop (max_repairs env settings + 1) 0 none [] request w)

    Faithful-hooked :
        (started_at : ℕ) (request : Option LlmRequest) (w : W)
        → FaithfulOutcome (hooked env settings started_at (some spec) request w).0
    unfolding hooked budgeted
    Faithful-hooked started_at none w = tt
    Faithful-hooked started_at (some request) w =
        elim (enforce_token_budget settings request)
          as (λ e. FaithfulOutcome (budgeted env settings started_at (some spec) request e w).0) [
            | some e ↦ tt
            | none ↦
                Faithful-guarded started_at request (maybe_guard settings.prompt_guard request) w
          ]

    Faithful-complete :
        (request : LlmRequest) (w : W)
        → FaithfulOutcome (complete env settings (some spec) request w).0
    unfolding complete
    Faithful-complete request w =
        let (started_at, w1) = env.now w in
        Faithful-hooked started_at (hook_request settings.request_hook request) w1

-- Without a response hook: a response that the structured mode returns carries the JSON object that
-- its text parses to, and every field of the specification is in this object with a value of its
-- type.
pub complete-Faithful :
    {W : Type 0} (env : Env W) (settings : LlmGatewaySettings) (spec : StructuredOutputSpec)
    (request : LlmRequest) (w : W) (r : LlmResponse)
    → settings.response_hook ≡ none
    → (complete env settings (some spec) request w).0 ≡ ok r
    → Faithful env settings spec r
complete-Faithful env settings spec request w r no_hook e =
    subst (FaithfulOutcome env settings spec) e
      (Faithful-complete env settings spec no_hook request w)
