-- ===== src/HttpResilience/Retry.antt =====
-- Requests, retry policies and delays of src/electripy/concurrency/http_resilience/domain.py and
-- services.py. Delays are natural numbers of one fixed unit, the jitter ratio is in hundredths, and
-- a computed delay is in hundredths of the unit, so that nothing is rounded.
pub mod Delays
use Prim.Native.Char.{Char, code}
use text.Mathlib.Text.{◌==◌ as str_eq}
use electripy_ai.Prelude.{
  ℕ, ◌+◌, ◌-◌, ◌*◌, ◌^◌, min, String, Bool, true, false, ◌&&◌, Option, none, some, List, [], ◌∷◌,
  map, leb, ltb, ◌==◌, if◌then◌else◌,
}

pub data HttpMethod : Type 0 where
  get head options post put patch delete : HttpMethod

-- The code points of a text, and the upper case of an ASCII one.
abbrev codes : String → List ℕ
codes String.[] = []
codes (String.◌∷◌ c s) = code c ∷ codes s

to_upper : ℕ → ℕ
to_upper c = if leb b'a' c && leb c b'z' then c - 32 else c

same : List ℕ → List ℕ → Bool
same [] [] = true
same (c ∷ s) (d ∷ t) = c == d && same s t
same _ _ = false

-- `HttpMethod(method.upper())`; `none` is its `ValueError`.
parse_method : String → Option HttpMethod
unfolding to_upper same
parse_method method =
    let m = map to_upper (codes method) in
    if same m (codes "GET")
    then some get
    else if same m (codes "HEAD")
    then some head
    else if same m (codes "OPTIONS")
    then some options
    else if same m (codes "POST")
    then some post
    else if same m (codes "PUT")
    then some put
    else if same m (codes "PATCH")
    then some patch
    else if same m (codes "DELETE")
    then some delete
    else none

safe_method : Option HttpMethod → Bool
safe_method (some get) = true
safe_method (some head) = true
safe_method (some options) = true
safe_method _ = false

unfoldable pub is_idempotent_method : String → Bool
unfolding parse_method safe_method
is_idempotent_method method = safe_method (parse_method method)

pub record ResponseData : Type 0 where
  pub status_code : ℕ
  pub headers : List (String × String)
  pub body : List ℕ
  pub url : String
  pub elapsed : Option ℕ

unfoldable pub is_success : ResponseData → Bool
is_success r = leb 200 r.status_code && ltb r.status_code 300

-- `HttpClientError` and its subclasses.
pub data HttpError : Type 0 where
  client_error circuit_open retry_exhausted transient : HttpError

pub record RetryPolicy : Type 0 where
  pub max_attempts : ℕ
  pub base_delay : ℕ
  pub max_delay : ℕ
  pub jitter_ratio : ℕ
  pub retryable_status_codes : List ℕ
  pub retryable_exceptions : HttpError → Bool
  pub honor_retry_after_header : Bool
  pub allow_retry_non_idempotent : Bool

-- `__post_init__`: `none` is its `ValueError`.
pub check_policy : RetryPolicy → Option RetryPolicy
check_policy p =
    if ltb p.max_attempts 1
    then none
    else if leb p.max_delay 0
    then none
    else if leb p.jitter_ratio 100
    then some p
    else none

pub get_header : String → List (String × String) → Option String
get_header key [] = none
get_header key ((k, v) ∷ hs) = if str_eq k key then some v else get_header key hs

-- The `Retry-After` value of the last response, where the policy honours it and `float` reads it.
-- `parse` stands for `float` on the values that are not negative.
retry_after : RetryPolicy → (String → Option ℕ) → Option ResponseData → Option ℕ
retry_after p parse none = none
retry_after p parse (some r) =
    if p.honor_retry_after_header
    then elim (get_header "retry-after" r.headers) [ none ↦ none | some raw ↦ parse raw ]
    else none

capped : RetryPolicy → ℕ → Option ℕ → ℕ
capped p attempt none = min (p.base_delay * 2 ^ attempt) p.max_delay
capped p attempt (some seconds) = min seconds p.max_delay

-- `uniform low high` is what `random.uniform` draws.
pub calculate_delay : RetryPolicy → (ℕ → ℕ → ℕ) → (String → Option ℕ) → ℕ → Option ResponseData → ℕ
unfolding retry_after capped
calculate_delay p uniform parse attempt last =
    let delay = capped p attempt (retry_after p parse last) in
    if ltb 0 p.jitter_ratio
    then uniform (delay * (100 - p.jitter_ratio)) (delay * (100 + p.jitter_ratio))
    else delay * 100
