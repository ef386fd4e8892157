-- ===== src/LlmCache/Port.antt =====
-- `compute_cache_key` and `CachedLlmPort` of src/electripy/ai/llm_cache/services.py, over the in-memory
-- backend. The inner port acts on a world of the caller's choice and is `none` where it raises; a timeout
-- goes to it unchanged. `digest` stands for the SHA-256 of the JSON text that `json.dumps` makes.
pub mod Transparent
use Prim.Native.String
use electripy_ai.Prelude.{ℕ, String, Option, none, some, List, []}
use electripy_ai.LlmGateway.Domain.{LlmMessage, LlmRequest, LlmResponse}
use electripy_ai.LlmCache.Memory.{CacheEntry, InMemoryCacheBackend, get, put}

abbrev pub Digest : Type 0
Digest = String → ℕ → List LlmMessage → String

abbrev pub InnerPort : Type 0 → Type 0
InnerPort W = LlmRequest → W → Option LlmResponse × W

-- `key_error` is the `KeyError` of a backend that has no room.
pub data Answer : Type 0 where
  answer : LlmResponse → Answer
  port_error key_error : Answer

unfoldable pub compute_cache_key : Digest → LlmRequest → String
compute_cache_key digest request = digest request.model request.temperature request.messages

-- `a or b` for an optional text.
unfoldable pub or_model : Option String → String → String
or_model none default = default
or_model (some String.[]) default = default
or_model (some (String.◌∷◌ c s)) default = String.◌∷◌ c s

unfoldable pub cached_response : CacheEntry → LlmResponse
cached_response e = record {
  text = e.response_text;
  raw_json = none;
  usage_total_tokens = none;
  finish_reason = none;
  request_id = none;
  model = some e.model;
  metadata = [];
}

unfoldable pub new_entry : String → LlmRequest → LlmResponse → CacheEntry
new_entry key request response = record {
  key = key;
  response_text = response.text;
  model = or_model response.model request.model;
  hit_count = 0;
}

unfoldable pub after_put :
    {W : Type 0}
    → LlmResponse
    → InMemoryCacheBackend
    → W
    → Option InMemoryCacheBackend
    → Answer × InMemoryCacheBackend × W
after_put response c w none = (key_error, c, w)
after_put response c w (some c') = (answer response, c', w)

-- After the inner port answered.
unfoldable pub remember :
    {W : Type 0}
    → String
    → LlmRequest
    → InMemoryCacheBackend
    → Option LlmResponse × W
    → Answer × InMemoryCacheBackend × W
remember key request c (none, w) = (port_error, c, w)
remember key request c (some response, w) =
    after_put response c w (put (new_entry key request response) c)

unfoldable pub serve :
    {W : Type 0}
    → InnerPort W
    → String
    → LlmRequest
    → W
    → Option CacheEntry × InMemoryCacheBackend
    → Answer × InMemoryCacheBackend × W
serve inner key request w (some e, c) = (answer (cached_response e), c, w)
serve inner key request w (none, c) = remember key request c (inner request w)

unfoldable pub complete :
    {W : Type 0}
    → Digest
    → InnerPort W
    → LlmRequest
    → InMemoryCacheBackend
    → W
    → Answer × InMemoryCacheBackend × W
complete digest inner request c w =
    let key = compute_cache_key digest request in serve inner key request w (get key c)
