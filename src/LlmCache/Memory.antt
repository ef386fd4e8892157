-- ===== src/LlmCache/Memory.antt =====
-- `InMemoryCacheBackend` of src/electripy/ai/llm_cache/adapters.py. The ordered dictionary lists its
-- entries from its end, the most recently used, to its front; each stands under its own key. The lock
-- makes each method atomic.
pub mod Recency
use text.Mathlib.Text.{◌==◌ as str_eq}
use electripy_ai.Prelude.{
  ℕ, ◌+◌, String, Bool, true, false, Option, none, some, List, [], ◌∷◌, length, leb, if◌then◌else◌,
}

pub record CacheEntry : Type 0 where
  pub key : String
  pub response_text : String
  pub model : String
  pub hit_count : ℕ

pub record CacheStats : Type 0 where
  pub hits : ℕ
  pub misses : ℕ
  pub size : ℕ

pub record InMemoryCacheBackend : Type 0 where
  pub max_size : ℕ
  pub store : List CacheEntry
  pub hits : ℕ
  pub misses : ℕ

unfoldable pub new_backend : ℕ → InMemoryCacheBackend
new_backend max_size = record { max_size = max_size; store = []; hits = 0; misses = 0 }

unfoldable pub find_entry : String → List CacheEntry → Option CacheEntry
find_entry key [] = none
find_entry key (e ∷ es) =
    let later = find_entry key es in if str_eq e.key key then some e else later

-- The store less the entry of a key.
unfoldable pub without : String → List CacheEntry → List CacheEntry
without key [] = []
without key (e ∷ es) = let later = without key es in if str_eq e.key key then es else e ∷ later

-- `popitem(last=False)`, of a store that is not empty.
unfoldable pub pop_oldest : CacheEntry → List CacheEntry → List CacheEntry
pop_oldest e [] = []
pop_oldest e (f ∷ fs) = e ∷ pop_oldest f fs

unfoldable pub served : CacheEntry → CacheEntry
served e = record e { hit_count = e.hit_count + 1 }

unfoldable pub got :
    Option CacheEntry → InMemoryCacheBackend → Option CacheEntry × InMemoryCacheBackend
got none c = (none, record c { misses = c.misses + 1 })
got (some e) c =
    (some (served e), record c { hits = c.hits + 1; store = served e ∷ without e.key c.store })

unfoldable pub get : String → InMemoryCacheBackend → Option CacheEntry × InMemoryCacheBackend
get key c = got (find_entry key c.store) c

-- `popitem` of an empty dictionary raises a `KeyError`, here `none`.
unfoldable pub evicted : CacheEntry → List CacheEntry → Option (List CacheEntry)
evicted e [] = none
evicted e (f ∷ fs) = some (e ∷ pop_oldest f fs)

unfoldable pub inserted : CacheEntry → ℕ → List CacheEntry → Option (List CacheEntry)
inserted e max_size store =
    if leb max_size (length store) then evicted e store else some (e ∷ store)

unfoldable pub stored :
    Option CacheEntry → CacheEntry → ℕ → List CacheEntry → Option (List CacheEntry)
stored (some old) e max_size store = some (e ∷ without e.key store)
stored none e max_size store = inserted e max_size store

unfoldable pub with_store :
    InMemoryCacheBackend → Option (List CacheEntry) → Option InMemoryCacheBackend
with_store c none = none
with_store c (some store) = some (record c { store = store })

unfoldable pub put : CacheEntry → InMemoryCacheBackend → Option InMemoryCacheBackend
put e c = with_store c (stored (find_entry e.key c.store) e c.max_size c.store)

unfoldable pub stats : InMemoryCacheBackend → CacheStats
stats c = record { hits = c.hits; misses = c.misses; size = length c.store }

unfoldable pub clear : InMemoryCacheBackend → InMemoryCacheBackend
clear c = record c { store = []; hits = 0; misses = 0 }

-- One call of a method that changes the backend.
pub data Operation : Type 0 where
  get_key : String → Operation
  put_entry : CacheEntry → Operation
  clear_all : Operation

unfoldable pub perform : Operation → InMemoryCacheBackend → Option InMemoryCacheBackend
perform (get_key key) c = some (get key c).1
perform (put_entry e) c = put e c
perform clear_all c = some (clear c)
