-- ===== src/LlmCache/Tests.antt =====
-- Runs of the cache of src/electripy/ai/llm_cache/.
use electripy_ai.Prelude.{
  ℕ, ◌+◌, ◌≤◌, ◌≡◌, refl, arith, String, Option, none, some, List, [], ◌∷◌, take, map, length,
}
use electripy_ai.LlmGateway.Domain.{LlmRequest, LlmResponse}
use electripy_ai.LlmCache.Memory.{
  CacheEntry, InMemoryCacheBackend, new_backend, find_entry, without, pop_oldest, served, got, get,
  evicted, inserted, stored, with_store, put, stats, Operation, get_key, put_entry, perform,
}
use electripy_ai.LlmCache.Memory.Recency.{
  recall_all, count_lookups, perform_all, lru_refines_memory,
}
use electripy_ai.LlmCache.Port.{
  Digest, InnerPort, compute_cache_key, cached_response, new_entry, after_put, remember, serve,
  complete, or_model,
}
use electripy_ai.LlmCache.Port.Transparent.{complete_all, reply_text, cache_is_transparent}

abbrev entry : String → CacheEntry
entry key = record { key = key; response_text = "text"; model = "m"; hit_count = 0 }

-- A lookup saves the older of two entries from the third.
abbrev calls : List Operation
calls =
    put_entry (entry "a")
    ∷ put_entry (entry "b")
    ∷ get_key "a"
    ∷ put_entry (entry "c")
    ∷ get_key "b"
    ∷ []

keys : List CacheEntry → List String
keys [] = []
keys (e ∷ es) = e.key ∷ keys es

kept : Option InMemoryCacheBackend → List String
kept none = []
kept (some c) = keys c.store

oldest_goes : kept (perform_all calls (new_backend 2)) ≡ "c" ∷ "a" ∷ []
unfolding kept keys perform get put got served find_entry without stored inserted evicted pop_oldest
    with_store new_backend
oldest_goes = refl

-- A backend without room raises.
no_room : perform_all calls (new_backend 0) ≡ none
unfolding perform put find_entry stored inserted evicted with_store new_backend
no_room = refl

lru_refines_memory_example :
    (c : InMemoryCacheBackend) × (perform_all calls (new_backend 2) ≡ some c)
    × (c.store ≡ take 2 (recall_all 2 calls []))
    × ((stats c).hits + (stats c).misses ≡ count_lookups calls 0)
    × ((stats c).size ≤ 2)
lru_refines_memory_example = lru_refines_memory 2 calls (omega arith)

abbrev digest : Digest
digest model temperature messages = model

abbrev reply : String → LlmResponse
reply text = record {
  text = text;
  raw_json = none;
  usage_total_tokens = none;
  finish_reason = none;
  request_id = none;
  model = none;
  metadata = [];
}

-- A port that repeats the name of the model; its world counts the requests.
abbrev inner : InnerPort ℕ
inner request n = (some (reply request.model), n + 1)

abbrev request : String → LlmRequest
request model = record {
  model = model;
  messages = [];
  temperature = 0;
  max_output_tokens = none;
  max_input_chars = none;
  metadata = none;
}

abbrev requests : List LlmRequest
requests = request "a" ∷ request "b" ∷ request "a" ∷ []

sent_twice : (complete_all digest inner requests (new_backend 2) 0).2 ≡ 2
unfolding complete compute_cache_key serve remember after_put new_entry or_model cached_response get
    put got served find_entry without stored inserted evicted pop_oldest with_store new_backend
sent_twice = refl

told : (r : LlmRequest) (w : ℕ) → reply_text (inner r w).0 ≡ some (compute_cache_key digest r)
unfolding compute_cache_key
told r w = refl

cache_is_transparent_example :
    ((complete_all digest inner requests (new_backend 2) 0).0
      ≡ map (λ r. reply_text (inner r 0).0) requests)
    × ((complete_all digest inner requests (new_backend 2) 0).2
          + (stats (complete_all digest inner requests (new_backend 2) 0).1).hits
        ≡ 0 + length requests)
cache_is_transparent_example =
    cache_is_transparent digest inner (λ key. some key) (λ n. n) told (λ r w. refl) 2 requests 0
      (omega arith)
