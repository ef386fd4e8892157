-- ===== src/Policy/Engine/History.antt =====
-- What holds of the approval store after any calls on a new engine
-- (src/electripy/ai/policy/services.py).
use electripy_ai.Prelude.{ℕ, ◌≡◌, refl, String, Bool, Option, List, [], ◌∷◌, arith}
use electripy_ai.Prelude.Dict.{lookup}
use electripy_ai.Policy.Domain.{
  EvidenceItem, PolicyContext, PolicyDecision, PolicyRule, PolicyPack, EscalationDirective,
  ApprovalToken,
}
use electripy_ai.Policy.Store.{PolicyEngineSettings, PolicyEngine, ok}
use electripy_ai.Policy.Engine.{
  evaluate, request_approval, grant_approval, valid, validate_token, load_pack,
}
use electripy_ai.Policy.Engine.Sound.{
  Backed, SoundEngine, load_pack-SoundAfter, grant-SoundAfter, request_approval-SoundAfter,
}

-- A call of a method that changes the engine.
pub data Op : Type 0 where
  evaluates : PolicyContext → Op
  asks : ℕ → PolicyContext → Op
  grants : ℕ → ℕ → ℕ → ℕ → String → List EvidenceItem → Op
  loads : PolicyPack → Op

unfoldable pub perform : Op → PolicyEngine → PolicyEngine
perform (evaluates context) e = (evaluate context e).1
perform (asks now context) e = (request_approval now context e).1
perform (grants checked issued stamped id by evidence) e =
    (grant_approval checked issued stamped id by evidence e).1
perform (loads pack) e = (load_pack pack e).1

unfoldable pub run : List Op → PolicyEngine → PolicyEngine
run [] e = e
run (op ∷ ops) e = run ops (perform op e)

-- Nothing has been requested or granted.
abbrev pub new_engine :
    List PolicyRule
    → Option (List (EscalationDirective × PolicyContext))
    → Option (List (PolicyContext × PolicyDecision))
    → PolicyEngineSettings
    → PolicyEngine
new_engine rules escalations observed settings = record {
  rules = rules;
  requests = [];
  tokens = [];
  escalations = escalations;
  observed = observed;
  settings = settings;
  drawn = 0;
}

perform-Sound :
    (enforce : Bool) (op : Op) (e : PolicyEngine)
    → SoundEngine enforce e
    → SoundEngine enforce (perform op e)
unfolding perform evaluate grant_approval
perform-Sound enforce (evaluates context) e s = s
perform-Sound enforce (asks now context) e s =
    (request_approval-SoundAfter enforce now context e s).engine
perform-Sound enforce (grants checked issued stamped id by evidence) e s =
    let after =
      grant-SoundAfter enforce checked issued stamped id by evidence (lookup id e.requests) e refl
        s in
    after.engine
perform-Sound enforce (loads pack) e s = (load_pack-SoundAfter enforce pack e s).engine

run-Sound :
    (enforce : Bool) (ops : List Op) (e : PolicyEngine)
    → SoundEngine enforce e
    → SoundEngine enforce (run ops e)
unfolding run
run-Sound enforce [] e s = s
run-Sound enforce (op ∷ ops) e s =
    run-Sound enforce ops (perform op e) (perform-Sound enforce op e s)

new_engine-Sound :
    (rules : List PolicyRule) (escalations : Option (List (EscalationDirective × PolicyContext)))
    (observed : Option (List (PolicyContext × PolicyDecision))) (settings : PolicyEngineSettings)
    → SoundEngine settings.enforce_evidence (new_engine rules escalations observed settings)
unfolding lookup
new_engine-Sound rules escalations observed settings =
    (refl, record { fresh = λ id r h. ground (arith, h); backed = λ id t h. ground (arith, h) })

-- After any calls on an engine with nothing requested or granted, whether they succeed or raise: a
-- token that validates is the one that was asked for, and names a stored request; if the engine
-- enforces evidence, the token carries every kind of evidence that this request requires.
pub validated-Backed :
    (rules : List PolicyRule) (escalations : Option (List (EscalationDirective × PolicyContext)))
    (observed : Option (List (PolicyContext × PolicyDecision))) (settings : PolicyEngineSettings)
    (ops : List Op) (now id : ℕ) (token : ApprovalToken)
    → let e = run ops (new_engine rules escalations observed settings) in
      validate_token now id e ≡ ok token
      → (token.token_id ≡ id) × Backed settings.enforce_evidence e.requests token
unfolding validate_token valid
validated-Backed rules escalations observed settings ops now id token validated =
    let e = run ops (new_engine rules escalations observed settings) in
    let sound =
      run-Sound settings.enforce_evidence ops (new_engine rules escalations observed settings)
        (new_engine-Sound rules escalations observed settings) in
    sound.1.backed id token (ground (arith, validated))
