-- ===== src/LlmCache/Memory/Recency.antt =====
-- The store of src/electripy/ai/llm_cache/adapters.py against a memory that forgets nothing.
use text.Mathlib.Text.{◌==◌ as str_eq}
use text.Mathlib.TextEquality.{eq_iff}
use electripy_ai.Prelude.{
  ℕ, zero, suc, ◌+◌, ◌≤◌, ◌<◌, ◌≡◌, refl, ap, subst, sym, ◌∙◌, String, true, Option, none, some,
  List, [], ◌∷◌, length, take, length-take, take_all, leb, by_cases, lt→leb_false, arith,
}
use electripy_ai.LlmCache.Memory.{
  CacheEntry, InMemoryCacheBackend, new_backend, find_entry, without, pop_oldest, served, got, get,
  evicted, inserted, stored, with_store, put, stats, clear, Operation, get_key, put_entry,
  clear_all, perform,
}

-- What a memory without bounds does, the most recently used entry first. A lookup is a use where a
-- store of the size `n` has the key.
abbrev pub recall : ℕ → Operation → List CacheEntry → List CacheEntry
recall n (get_key key) h = elim (find_entry key (take n h)) [
  | none ↦ h
  | some e ↦ served e ∷ without e.key h
]
recall n (put_entry e) h = e ∷ without e.key h
recall n clear_all h = []

-- The lookups since the last `clear`.
abbrev pub lookups : Operation → ℕ → ℕ
lookups (get_key key) n = n + 1
lookups (put_entry e) n = n
lookups clear_all n = 0

abbrev pub perform_all : List Operation → InMemoryCacheBackend → Option InMemoryCacheBackend
perform_all [] c = some c
perform_all (o ∷ os) c = elim (perform o c) [ none ↦ none | some c' ↦ perform_all os c' ]

abbrev pub recall_all : ℕ → List Operation → List CacheEntry → List CacheEntry
recall_all n [] h = h
recall_all n (o ∷ os) h = recall_all n os (recall n o h)

abbrev pub count_lookups : List Operation → ℕ → ℕ
count_lookups [] n = n
count_lookups (o ∷ os) n = count_lookups os (lookups o n)

-- Taking away an entry that is in reach.
without-take :
    (key : String) (m : ℕ) (h : List CacheEntry) (e : CacheEntry)
    → find_entry key (take (suc m) h) ≡ some e
    → without key (take (suc m) h) ≡ take m (without key h)
unfolding find_entry without
without-take key m [] e f = ground (arith, f)
without-take key zero (x ∷ xs) e f = ground (arith, f)
without-take key (suc m) (x ∷ xs) e f = ground (arith, f, without-take key m xs e)

-- Taking away an entry that is out of reach.
take-without :
    (key : String) (m : ℕ) (h : List CacheEntry)
    → find_entry key (take (suc m) h) ≡ none
    → take m (without key h) ≡ take m h
unfolding find_entry without
take-without key zero h f = refl
take-without key (suc m) [] f = refl
take-without key (suc m) (x ∷ xs) f = ground (arith, f, take-without key m xs)

pop_oldest-take :
    (m : ℕ) (x : CacheEntry) (xs : List CacheEntry)
    → m ≤ length xs
    → pop_oldest x (take m xs) ≡ take m (x ∷ xs)
unfolding pop_oldest
pop_oldest-take zero x xs h = refl
pop_oldest-take (suc m) x [] h = absurd (omega (arith, h))
pop_oldest-take (suc m) x (y ∷ ys) h = ap (λ zs. x ∷ zs) (pop_oldest-take m y ys (omega (arith, h)))

find-key :
    (key : String) (h : List CacheEntry) (e : CacheEntry)
    → find_entry key h ≡ some e
    → str_eq e.key key ≡ true
unfolding find_entry
find-key key [] e f = ground (arith, f)
find-key key (x ∷ xs) e f = ground (arith, f, find-key key xs e)

without-none : (key : String) (h : List CacheEntry) → find_entry key h ≡ none → without key h ≡ h
unfolding find_entry without
without-none key [] f = refl
without-none key (x ∷ xs) f = ground (arith, f, without-none key xs)

-- A new key, with and without room.
inserted-take :
    (e : CacheEntry) (m : ℕ) (h : List CacheEntry)
    → find_entry e.key (take (suc m) h) ≡ none
    → inserted e (suc m) (take (suc m) h) ≡ some (take (suc m) (e ∷ without e.key h))
unfolding inserted evicted without
inserted-take e m [] f =
    ground
      (arith, lt→leb_false (suc m) 0 (omega arith), take_all {A = CacheEntry} m [] (omega arith))
inserted-take e m (x ∷ xs) f =
    by_cases (λ (r : Option (List CacheEntry)). r ≡ some (e ∷ take m (without e.key (x ∷ xs))))
      (leb (suc m) (suc (length (take m xs))))
      (λ full.
        ap (λ es. some (e ∷ es))
          (pop_oldest-take m x xs (ground (arith, full, length-take m xs))
            ∙ sym (take-without e.key m (x ∷ xs) f)))
      (λ room.
        let short : length (x ∷ xs) ≤ m = ground (arith, room, length-take m xs) in
        let whole = ap (λ ys. x ∷ ys) (take_all m xs (omega (arith, short))) in
        let kept = without-none e.key (x ∷ xs) (subst (λ ys. find_entry e.key ys ≡ none) whole f) in
        ap (λ es. some (e ∷ es)) (whole ∙ sym (take_all m (x ∷ xs) short) ∙ sym (ap (take m) kept)))

stored-take :
    (found : Option CacheEntry) (e : CacheEntry) (m : ℕ) (h : List CacheEntry)
    → find_entry e.key (take (suc m) h) ≡ found
    → stored found e (suc m) (take (suc m) h) ≡ some (take (suc m) (e ∷ without e.key h))
unfolding stored
stored-take none e m h f = inserted-take e m h f
stored-take (some old) e m h f = ap (λ es. some (e ∷ es)) (without-take e.key m h old f)

-- The backend stores the first entries of the memory, as many as it has room for.
record Stores (m : ℕ) (h : List CacheEntry) (n : ℕ) (c : InMemoryCacheBackend) : Type 0 where
  size : c.max_size ≡ suc m
  first : c.store ≡ take (suc m) h
  counted : c.hits + c.misses ≡ n

find_again :
    (key : String) (h : List CacheEntry) (e : CacheEntry)
    → find_entry key h ≡ some e
    → find_entry e.key h ≡ some e
find_again key h e f =
    subst (λ k. find_entry k h ≡ some e) (sym ((eq_iff e.key key).0 (find-key key h e f))) f

got-Stores :
    (m : ℕ) (key : String) (h : List CacheEntry) (n : ℕ) (c : InMemoryCacheBackend)
    (found : Option CacheEntry)
    → find_entry key (take (suc m) h) ≡ found
    → Stores m h n c
    → Stores m
        (elim found [ none ↦ h | some e ↦ served e ∷ without e.key h ])
        (n + 1)
        (got found c).1
unfolding got
got-Stores m key h n c none f s = record {
  size = s.size;
  first = s.first;
  counted = omega (arith, s.counted);
}
got-Stores m key h n c (some e) f s = record {
  size = s.size;
  first =
      ap (λ es. served e ∷ es)
        (ap (without e.key) s.first
          ∙ without-take e.key m h e (find_again key (take (suc m) h) e f));
  counted = omega (arith, s.counted);
}

perform-Stores :
    (m : ℕ) (o : Operation) (h : List CacheEntry) (n : ℕ) (c : InMemoryCacheBackend)
    → Stores m h n c
    → (c' : InMemoryCacheBackend) × (perform o c ≡ some c')
      × Stores m (recall (suc m) o h) (lookups o n) c'
unfolding perform get put with_store clear
perform-Stores m (get_key key) h n c s =
    let seen = find_entry key (take (suc m) h) in
    let h' = recall (suc m) (get_key key) h in
    (
      (get key c).1,
      refl,
      subst (λ found. Stores m h' (n + 1) (got found c).1) (sym (ap (find_entry key) s.first))
          (got-Stores m key h n c seen refl s),
    )
perform-Stores m (put_entry e) h n c s = (
  record c { store = take (suc m) (e ∷ without e.key h) },
  (λ i. with_store c (stored (find_entry e.key (s.first i)) e (s.size i) (s.first i)))
      ∙ ap (with_store c) (stored-take (find_entry e.key (take (suc m) h)) e m h refl),
  record { size = s.size; first = refl; counted = s.counted },
)
perform-Stores m clear_all h n c s =
    (clear c, refl, record { size = s.size; first = refl; counted = refl })

all-Stores :
    (m : ℕ) (os : List Operation) (h : List CacheEntry) (n : ℕ) (c : InMemoryCacheBackend)
    → Stores m h n c
    → (c' : InMemoryCacheBackend) × (perform_all os c ≡ some c')
      × Stores m (recall_all (suc m) os h) (count_lookups os n) c'
all-Stores m [] h n c s = (c, refl, s)
all-Stores m (o ∷ os) h n c s =
    let (c1, e, s1) = perform-Stores m o h n c s in
    let (c2, f, s2) = all-Stores m os (recall (suc m) o h) (lookups o n) c1 s1 in
    (c2, ap (λ r. elim r [ none ↦ none | some d ↦ perform_all os d ]) e ∙ f, s2)

-- With room for at least one entry: any calls of a new backend's methods succeed, and leave in its store,
-- from the most recently used to the least, the first `max_size` entries of a memory without bounds, in
-- which a lookup counts as a use where the store has the key; and `stats` reports as hits and misses
-- together the lookups since the last `clear`, and a size of at most `max_size`.
pub lru_refines_memory :
    (max_size : ℕ) (os : List Operation)
    → 0 < max_size
    → (c : InMemoryCacheBackend) × (perform_all os (new_backend max_size) ≡ some c)
      × (c.store ≡ take max_size (recall_all max_size os []))
      × ((stats c).hits + (stats c).misses ≡ count_lookups os 0)
      × ((stats c).size ≤ max_size)
unfolding new_backend stats
lru_refines_memory zero os h = absurd (omega (arith, h))
lru_refines_memory (suc m) os h =
    let start : Stores m [] 0 (new_backend (suc m)) = record {
      size = refl;
      first = refl;
      counted = refl;
    } in
    let (c, e, s) = all-Stores m os [] 0 (new_backend (suc m)) start in
    (
      c,
      e,
      s.first,
      s.counted,
      omega (arith, ap length s.first, length-take (suc m) (recall_all (suc m) os [])),
    )
