-- ===== src/Policy/Engine/Sound.antt =====
-- An invariant of the approval store that the methods of `PolicyEngine` of
-- src/electripy/ai/policy/services.py keep.
use electripy_ai.Prelude.{
  ℕ, ◌+◌, ◌<◌, ◌≡◌, refl, ap, subst, String, Bool, true, false, not, ◌&&◌, ◌||◌, Option, none, some,
  List, [], ◌∷◌, arith, ltb, ◌==◌, Bool-cases, inl, inr, if◌then◌else◌,
}
use electripy_ai.Prelude.Dict.{Dict, lookup, insert, lookup-insert}
use electripy_ai.Policy.Domain.{
  require_approval, same_outcome, EvidenceItem, PolicyContext, PolicyRule, PolicyPack,
  ApprovalRequest, ApprovalToken,
}
use electripy_ai.Policy.Evaluator.{all_provided, is_empty}
use electripy_ai.Policy.Store.{
  PolicyEngine, PolicyEngineError, rule_conflicts, pack_empty, pack_has_duplicates,
  request_not_pending, request_expired, evidence_missing, not_require_approval, Result, raise,
  list_rules, add_rule,
}
use electripy_ai.Policy.Engine.{
  is_pending, repeats, missing, evaluate, new_request, request_approval, new_token, grant, known,
  load_rules, load_pack,
}
use electripy_ai.Policy.Engine.Tokens.{none_missing}

-- The request of the token is stored, and the token has the evidence for it, if that is enforced.
abbrev pub Backed : Bool → Dict ApprovalRequest → ApprovalToken → Type 0
Backed enforce requests token =
    (r : ApprovalRequest) × lookup token.request_id requests ≡ some r
    × (not enforce || all_provided token.evidence r.required_evidence) ≡ true

pub record Sound (enforce : Bool) (requests : Dict ApprovalRequest) (tokens : Dict ApprovalToken)
    (drawn : ℕ) : Type 0 where
  pub fresh : (id : ℕ) (r : ApprovalRequest) → lookup id requests ≡ some r → id < drawn
  pub backed :
      (id : ℕ) (token : ApprovalToken)
      → lookup id tokens ≡ some token
      → (token.token_id ≡ id) × Backed enforce requests token

abbrev pub SoundEngine : Bool → PolicyEngine → Type 0
SoundEngine enforce e =
    (e.settings.enforce_evidence ≡ enforce) × Sound enforce e.requests e.tokens e.drawn

module _ (enforce : Bool) (requests : Dict ApprovalRequest) (tokens : Dict ApprovalToken)
    (drawn : ℕ) (s : Sound enforce requests tokens drawn) where
  insert_request-Sound :
      (approval : ApprovalRequest)
      → Sound enforce (insert drawn approval requests) tokens (drawn + 1)
  insert_request-Sound approval = record {
    fresh = λ id r h. ground (arith, lookup-insert drawn id approval requests, s.fresh id r, h);
    backed = λ id token h.
        let (key, (r, found, enough)) = s.backed id token h in
        (
          key,
          (
            r,
            ground (
              arith,
              lookup-insert drawn token.request_id approval requests,
              s.fresh token.request_id r found,
              found,
            ),
            enough,
          ),
        );
  }

  insert_token-Sound :
      (token : ApprovalToken)
      → token.token_id ≡ drawn
      → Backed enforce requests token
      → Sound enforce requests (insert drawn token tokens) (drawn + 1)
  insert_token-Sound token named b = record {
    fresh = λ id r h. ground (arith, s.fresh id r h);
    backed = λ id t h. elim (Bool-cases (drawn == id)) [
      | inl here ↦
          let same : token ≡ t = ground (arith, lookup-insert drawn id token tokens) in
          (
            ground (arith, ap (λ (x : ApprovalToken). x.token_id) same),
            subst (Backed enforce requests) same b,
          )
      | inr there ↦ s.backed id t (ground (arith, lookup-insert drawn id token tokens))
    ];
  }

-- The engine after a call is sound.
pub record SoundAfter {A : Type 0} (enforce : Bool) (x : Result A × PolicyEngine) : Type 0 where
  pub engine : SoundEngine enforce x.1

-- A guard that raises.
guard-SoundAfter :
    {A : Type 0} {enforce : Bool} (b : Bool) (error : PolicyEngineError) (e : PolicyEngine)
    {y : Result A × PolicyEngine}
    → SoundEngine enforce e
    → (b ≡ false → SoundAfter enforce y)
    → SoundAfter enforce (if b then (raise error, e) else y)
guard-SoundAfter true error e s sy = record { engine = s }
guard-SoundAfter false error e s sy = sy refl

load_rules-SoundAfter :
    (enforce : Bool) (existing rules : List PolicyRule) (e : PolicyEngine)
    → SoundEngine enforce e
    → SoundAfter enforce (load_rules existing rules e)
unfolding load_rules add_rule
load_rules-SoundAfter enforce existing [] e s = record { engine = s }
load_rules-SoundAfter enforce existing (r ∷ rs) e s =
    guard-SoundAfter (known existing r.rule_id) (rule_conflicts r.rule_id) e s
      λ _. load_rules-SoundAfter enforce existing rs (add_rule r e) s

pub load_pack-SoundAfter :
    (enforce : Bool) (pack : PolicyPack) (e : PolicyEngine)
    → SoundEngine enforce e
    → SoundAfter enforce (load_pack pack e)
unfolding load_pack
load_pack-SoundAfter enforce pack e s = guard-SoundAfter (is_empty pack.rules) pack_empty e s λ _.
    guard-SoundAfter (repeats pack.rules) pack_has_duplicates e s
      λ _. load_rules-SoundAfter enforce (list_rules none e.rules) pack.rules e s

pub grant-SoundAfter :
    (enforce : Bool) (checked issued stamped id : ℕ) (by : String) (evidence : List EvidenceItem)
    (found : Option ApprovalRequest) (e : PolicyEngine)
    → lookup id e.requests ≡ found
    → SoundEngine enforce e
    → SoundAfter enforce (grant checked issued stamped id by evidence found e)
unfolding grant new_token missing
grant-SoundAfter enforce checked issued stamped id by evidence none e stored s = record {
  engine = s;
}
grant-SoundAfter enforce checked issued stamped id by evidence (some r) e stored s =
    guard-SoundAfter (not (is_pending r.status)) (request_not_pending r.status) e s λ _.
      guard-SoundAfter (ltb (r.created_at + r.ttl) checked) request_expired e s λ _.
        guard-SoundAfter (e.settings.enforce_evidence && not (is_empty (missing r evidence)))
          (evidence_missing (missing r evidence)) e s
          λ whole. record {
            engine = (
              s.0,
              insert_token-Sound enforce e.requests e.tokens e.drawn s.1
                  (new_token issued stamped by evidence r id e.drawn) refl
                  (
                    r,
                    stored,
                    ground (arith, none_missing evidence r.required_evidence, s.0, whole),
                  ),
            );
          }

pub request_approval-SoundAfter :
    (enforce : Bool) (now : ℕ) (context : PolicyContext) (e : PolicyEngine)
    → SoundEngine enforce e
    → SoundAfter enforce (request_approval now context e)
unfolding evaluate request_approval
request_approval-SoundAfter enforce now context e s =
    guard-SoundAfter (not (same_outcome (evaluate context e).0.outcome require_approval))
      (not_require_approval (evaluate context e).0.outcome) (evaluate context e).1 s
      λ _. record {
        engine = (
          s.0,
          insert_request-Sound enforce e.requests e.tokens e.drawn s.1
              (new_request now context (evaluate context e).0 (evaluate context e).1),
        );
      }
