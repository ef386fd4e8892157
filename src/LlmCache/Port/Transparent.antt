-- ===== src/LlmCache/Port/Transparent.antt =====
-- The cached port of src/electripy/ai/llm_cache/services.py against the port that it wraps.
use text.Mathlib.Text.{◌==◌ as str_eq}
use text.Mathlib.TextEquality.{eq_iff}
use electripy_ai.Prelude.{
  ℕ, ◌+◌, ◌<◌, ◌≡◌, refl, ap, subst, sym, ◌∙◌, String, Option, none, some, List, [], ◌∷◌, length,
  leb, All, map, arith, by_cases, lt→leb_false,
}
use electripy_ai.LlmGateway.Domain.{LlmRequest, LlmResponse}
use electripy_ai.LlmCache.Memory.{
  CacheEntry, InMemoryCacheBackend, new_backend, find_entry, without, pop_oldest, served, got, get,
  evicted, inserted, stored, with_store, put, stats,
}
use electripy_ai.LlmCache.Port.{
  Digest, InnerPort, Answer, answer, port_error, key_error, compute_cache_key, cached_response,
  new_entry, after_put, remember, serve, complete,
}

-- The text of an answer, of the cached port and of the inner port.
abbrev pub answer_text : Answer → Option String
answer_text (answer response) = some response.text
answer_text port_error = none
answer_text key_error = none

abbrev pub reply_text : Option LlmResponse → Option String
reply_text none = none
reply_text (some response) = some response.text

module _ {W : Type 0} (digest : Digest) (inner : InnerPort W) where
  -- Requests one after another: the texts of the answers, and what is left.
  abbrev pub complete_all :
      List LlmRequest → InMemoryCacheBackend → W → List (Option String) × InMemoryCacheBackend × W
  complete_all [] c w = ([], c, w)
  complete_all (r ∷ rs) c w =
      let (a, c1, w1) = complete digest inner r c w in
      let (texts, c2, w2) = complete_all rs c1 w1 in (answer_text a ∷ texts, c2, w2)

module _ (given : String → Option String) where
  -- An entry holds the text that stands for its key.
  abbrev Right : CacheEntry → Type 0
  Right e = given e.key ≡ some e.response_text

  without-Right : (key : String) (es : List CacheEntry) → All Right es → All Right (without key es)
  unfolding without
  without-Right key [] h = h
  without-Right key (e ∷ es) h =
      by_cases (All Right) (str_eq e.key key) (λ _. h.1) (λ _. (h.0, without-Right key es h.1))

  pop_oldest-Right :
      (e : CacheEntry) (es : List CacheEntry) → Right e → All Right es → All Right (pop_oldest e es)
  unfolding pop_oldest
  pop_oldest-Right e [] g h = h
  pop_oldest-Right e (f ∷ fs) g h = (g, pop_oldest-Right f fs h.0 h.1)

  find_entry-Right :
      (key : String) (es : List CacheEntry) (e : CacheEntry)
      → All Right es
      → find_entry key es ≡ some e
      → given key ≡ some e.response_text
  unfolding find_entry
  find_entry-Right key [] e h f = ground (arith, f)
  find_entry-Right key (x ∷ xs) e h f =
      ground (arith, eq_iff x.key key, h.0, f, find_entry-Right key xs e h.1)

  find_again :
      (key : String) (es : List CacheEntry) (e : CacheEntry)
      → All Right es
      → find_entry key es ≡ some e
      → Right e
  unfolding find_entry
  find_again key [] e h f = ground (arith, f)
  find_again key (x ∷ xs) e h f = ground (arith, h.0, f, find_again key xs e h.1)

  -- A backend with room for an entry, whose entries are right.
  record Trusty (c : InMemoryCacheBackend) : Type 0 where
    room : 0 < c.max_size
    right : All Right c.store

  got-Trusty :
      (key : String) (found : Option CacheEntry) (c : InMemoryCacheBackend)
      → find_entry key c.store ≡ found
      → Trusty c
      → Trusty (got found c).1
  unfolding got served
  got-Trusty key none c f t = record { room = t.room; right = t.right }
  got-Trusty key (some e) c f t = record {
    room = t.room;
    right = (find_again key c.store e t.right f, without-Right e.key c.store t.right);
  }

  inserted-Right :
      (e : CacheEntry) (n : ℕ) (es : List CacheEntry)
      → 0 < n
      → Right e
      → All Right es
      → (es' : List CacheEntry) × (inserted e n es ≡ some es') × All Right es'
  unfolding inserted evicted
  inserted-Right e n [] pos g h = (e ∷ [], ground (arith, lt→leb_false n 0 pos), (g, tt))
  inserted-Right e n (x ∷ xs) pos g h =
      by_cases (λ r. (es' : List CacheEntry) × (r ≡ some es') × All Right es')
        (leb n (length (x ∷ xs)))
        (λ _. (e ∷ pop_oldest x xs, refl, (g, pop_oldest-Right x xs h.0 h.1)))
        (λ _. (e ∷ x ∷ xs, refl, (g, h)))

  stored-Right :
      (found : Option CacheEntry) (e : CacheEntry) (n : ℕ) (es : List CacheEntry)
      → 0 < n
      → Right e
      → All Right es
      → (es' : List CacheEntry) × (stored found e n es ≡ some es') × All Right es'
  unfolding stored
  stored-Right none e n es pos g h = inserted-Right e n es pos g h
  stored-Right (some old) e n es pos g h =
      (e ∷ without e.key es, refl, (g, without-Right e.key es h))

  put-Trusty :
      (e : CacheEntry) (c : InMemoryCacheBackend)
      → Right e
      → Trusty c
      → (c' : InMemoryCacheBackend) × (put e c ≡ some c') × Trusty c' × (c'.hits ≡ c.hits)
  unfolding put with_store
  put-Trusty e c g t =
      let (es, eq, h) =
        stored-Right (find_entry e.key c.store) e c.max_size c.store t.room g t.right in
      (record c { store = es }, ap (with_store c) eq, record { room = t.room; right = h }, refl)

  module _ {W : Type 0} (sent : W → ℕ) where
    -- What one completion of a request of the key does.
    Served : String → W → InMemoryCacheBackend → Answer × InMemoryCacheBackend × W → Type 0
    Served key w c after =
        (answer_text after.0 ≡ given key)
        × Trusty after.1
        × (sent after.2 + after.1.hits ≡ sent w + c.hits + 1)

    remember-Served :
        (key : String) (r : LlmRequest) (c : InMemoryCacheBackend) (w w' : W)
        (said : Option LlmResponse)
        → Trusty c
        → reply_text said ≡ given key
        → sent w' ≡ sent w + 1
        → Served key w c (remember key r c (said, w'))
    unfolding Served remember new_entry after_put
    remember-Served key r c w w' none t told counted = (told, t, omega (arith, counted))
    remember-Served key r c w w' (some response) t told counted =
        let e = new_entry key r response in
        let (c', eq, t', same) = put-Trusty e c (sym told) t in
        subst (λ o. Served key w c (after_put response c w' o)) (sym eq)
          (told, t', omega (arith, counted, same))

    module _ (digest : Digest) (inner : InnerPort W)
        (told : (r : LlmRequest) (w : W)
          → reply_text (inner r w).0 ≡ given (compute_cache_key digest r))
        (counted : (r : LlmRequest) (w : W) → sent (inner r w).1 ≡ sent w + 1) where
      serve-Served :
          (r : LlmRequest) (c : InMemoryCacheBackend) (w : W) (found : Option CacheEntry)
          → find_entry (compute_cache_key digest r) c.store ≡ found
          → Trusty c
          → Served
              (compute_cache_key digest r)
              w
              c
              (serve inner (compute_cache_key digest r) r w (got found c))
      unfolding Served serve got served cached_response
      serve-Served r c w none f t =
          let key = compute_cache_key digest r in
          let missed = record c { misses = c.misses + 1 } in
          remember-Served key r missed w (inner r w).1 (inner r w).0 (got-Trusty key none c f t)
            (told r w) (counted r w)
      serve-Served r c w (some e) f t =
          let key = compute_cache_key digest r in
          (
            sym (find_entry-Right key c.store e t.right f),
            got-Trusty key (some e) c f t,
            omega arith,
          )

      complete-Served :
          (r : LlmRequest) (c : InMemoryCacheBackend) (w : W)
          → Trusty c
          → Served (compute_cache_key digest r) w c (complete digest inner r c w)
      unfolding complete get
      complete-Served r c w t =
          serve-Served r c w (find_entry (compute_cache_key digest r) c.store) refl t

      all-Served :
          (rs : List LlmRequest) (c : InMemoryCacheBackend) (w : W)
          → Trusty c
          → ((complete_all digest inner rs c w).0
              ≡ map (λ r. given (compute_cache_key digest r)) rs)
            × (sent (complete_all digest inner rs c w).2 + (complete_all digest inner rs c w).1.hits
                ≡ sent w + c.hits + length rs)
      unfolding Served
      all-Served [] c w t = (refl, omega arith)
      all-Served (r ∷ rs) c w t =
          let (a, c1, w1) = complete digest inner r c w in
          let (same, t1, total) = complete-Served r c w t in
          let (sames, totals) = all-Served rs c1 w1 t1 in
          (
            ap (λ x. x ∷ (complete_all digest inner rs c1 w1).0) same
                ∙ ap (λ xs. given (compute_cache_key digest r) ∷ xs) sames,
            omega (arith, total, totals),
          )

-- With room for at least one entry, and a port whose text depends on nothing but the key of a request
-- (`given`), as its answer or as its failure: requests one after another through a new cache are answered
-- with the texts that the port itself would give, and fail where it would; and the requests sent to the
-- port and the hits that `stats` reports are together as many as the requests.
pub cache_is_transparent :
    {W : Type 0} (digest : Digest) (inner : InnerPort W) (given : String → Option String)
    (sent : W → ℕ)
    → ((r : LlmRequest) (w : W) → reply_text (inner r w).0 ≡ given (compute_cache_key digest r))
    → ((r : LlmRequest) (w : W) → sent (inner r w).1 ≡ sent w + 1)
    → (max_size : ℕ) (rs : List LlmRequest) (w : W) → 0 < max_size
    → ((complete_all digest inner rs (new_backend max_size) w).0
        ≡ map (λ r. reply_text (inner r w).0) rs)
      × (sent (complete_all digest inner rs (new_backend max_size) w).2
            + (stats (complete_all digest inner rs (new_backend max_size) w).1).hits
          ≡ sent w + length rs)
unfolding new_backend stats
cache_is_transparent digest inner given sent told counted max_size rs w pos =
    let start : Trusty given (new_backend max_size) = record { room = pos; right = tt } in
    let (same, total) =
      all-Served given sent digest inner told counted rs (new_backend max_size) w start in
    (same ∙ ap (λ f. map f rs) (λ i r. sym (told r w) i), omega (arith, total))
