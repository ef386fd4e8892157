-- ===== src/Policy/Engine/Tokens.antt =====
-- Approval requests and tokens (src/electripy/ai/policy/services.py).
use electripy_ai.Prelude.{
  ℕ, ◌+◌, ◌≡◌, refl, String, Bool, false, not, ◌&&◌, ◌||◌, Option, none, some, List, [], ◌∷◌, arith,
  ltb,
}
use electripy_ai.Prelude.Dict.{lookup, lookup-insert}
use electripy_ai.Policy.Domain.{EvidenceKind, EvidenceItem, ApprovalRequest, ApprovalToken}
use electripy_ai.Policy.Evaluator.{provided, all_provided, is_empty}
use electripy_ai.Policy.Store.{PolicyEngine, ok, is_ok}
use electripy_ai.Policy.Engine.{
  is_pending, missing, kept, new_token, grant, grant_approval, valid, validate_token,
}

pub none_missing :
    (evidence : List EvidenceItem) (kinds : List EvidenceKind)
    → is_empty (kept (λ kind. not (provided evidence kind)) kinds) ≡ all_provided evidence kinds
unfolding kept all_provided
none_missing evidence [] = refl
none_missing evidence (k ∷ ks) = ground (arith, none_missing evidence ks)

-- What a grant asks of the request.
pub grantable : ℕ → Bool → List EvidenceItem → Option ApprovalRequest → Bool
grantable now enforce evidence none = false
grantable now enforce evidence (some r) =
    is_pending r.status
    && (not (ltb (r.created_at + r.ttl) now)
        && (not enforce || all_provided evidence r.required_evidence))

pub grant_lem :
    (checked issued stamped id : ℕ) (by : String) (evidence : List EvidenceItem)
    (found : Option ApprovalRequest) (e : PolicyEngine)
    → is_ok (grant checked issued stamped id by evidence found e).0
      ≡ grantable checked e.settings.enforce_evidence evidence found
unfolding grant grantable missing
grant_lem checked issued stamped id by evidence none e = refl
grant_lem checked issued stamped id by evidence (some r) e =
    ground (arith, none_missing evidence r.required_evidence)

-- A grant succeeds exactly when its request is stored, pending and not past its time to live, and
-- its evidence is complete or the engine does not enforce evidence.
grant_approval_succeeds :
    (checked issued stamped id : ℕ) (by : String) (evidence : List EvidenceItem) (e : PolicyEngine)
    → is_ok (grant_approval checked issued stamped id by evidence e).0
      ≡ grantable checked e.settings.enforce_evidence evidence (lookup id e.requests)
unfolding grant_approval
grant_approval_succeeds checked issued stamped id by evidence e =
    grant_lem checked issued stamped id by evidence (lookup id e.requests) e

-- A grant does not use up its request: when one succeeds, another at the same time succeeds as well.
grant_approval_again :
    (checked issued stamped id : ℕ) (by : String) (evidence : List EvidenceItem) (e : PolicyEngine)
    (issued' stamped' : ℕ) (by' : String)
    → is_ok
        (grant_approval checked issued' stamped' id by' evidence
          (grant_approval checked issued stamped id by evidence e).1).0
      ≡ is_ok (grant_approval checked issued stamped id by evidence e).0
unfolding grant_approval grant
grant_approval_again checked issued stamped id by evidence e issued' stamped' by' = ground arith

-- A granted token is valid until the request's time to live has passed since it was issued, and no
-- longer.
pub validate_token-grant_approval :
    (checked issued stamped id : ℕ) (by : String) (evidence : List EvidenceItem) (e : PolicyEngine)
    (r : ApprovalRequest) (token : ApprovalToken) (now : ℕ)
    → lookup id e.requests ≡ some r
    → (grant_approval checked issued stamped id by evidence e).0 ≡ ok token
    → is_ok (
        validate_token now token.token_id
          (grant_approval checked issued stamped id by evidence e).1)
      ≡ ltb now (issued + r.ttl)
unfolding grant_approval grant validate_token valid new_token
validate_token-grant_approval checked issued stamped id by evidence e r token now stored granted =
    ground (
      arith,
      lookup-insert e.drawn e.drawn (new_token issued stamped by evidence r id e.drawn) e.tokens,
    )
