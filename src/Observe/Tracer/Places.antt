-- ===== src/Observe/Tracer/Places.antt =====
-- The spans of a tracer by their places (src/electripy/observability/observe/adapters.py).
use electripy_ai.Prelude.{
  ℕ, zero, suc, ◌<◌, ◌≡◌, ◌≢◌, refl, ap, some, List, [], ◌∷◌, ◌++◌, length, arith,
}
use electripy_ai.Observe.Tracer.{InMemorySpan, span_at, update_at}

pub span_at-update_at :
    (i : ℕ) (f : InMemorySpan → InMemorySpan) (ss : List InMemorySpan) (s : InMemorySpan)
    → span_at i ss ≡ some s
    → span_at i (update_at i f ss) ≡ some (f s)
unfolding span_at update_at
span_at-update_at i f [] s e = absurd (ground (arith, e))
span_at-update_at zero f (x ∷ xs) s e = ground (arith, e)
span_at-update_at (suc i) f (x ∷ xs) s e = span_at-update_at i f xs s e

pub span_at-elsewhere :
    (i j : ℕ) (f : InMemorySpan → InMemorySpan) (ss : List InMemorySpan)
    → i ≢ j
    → span_at j (update_at i f ss) ≡ span_at j ss
unfolding span_at update_at
span_at-elsewhere i j f [] ne = refl
span_at-elsewhere zero zero f (x ∷ xs) ne = absurd (ne refl)
span_at-elsewhere zero (suc j) f (x ∷ xs) ne = refl
span_at-elsewhere (suc i) zero f (x ∷ xs) ne = refl
span_at-elsewhere (suc i) (suc j) f (x ∷ xs) ne = span_at-elsewhere i j f xs (λ e. ne (ap suc e))

pub length-update_at :
    (i : ℕ) (f : InMemorySpan → InMemorySpan) (ss : List InMemorySpan)
    → length (update_at i f ss) ≡ length ss
unfolding update_at
length-update_at i f [] = refl
length-update_at zero f (x ∷ xs) = refl
length-update_at (suc i) f (x ∷ xs) = ap suc (length-update_at i f xs)

pub span_at-append :
    (j : ℕ) (ss ts : List InMemorySpan) → j < length ss → span_at j (ss ++ ts) ≡ span_at j ss
unfolding span_at
span_at-append j [] ts h = absurd (omega (arith, h))
span_at-append zero (x ∷ xs) ts h = refl
span_at-append (suc j) (x ∷ xs) ts h = span_at-append j xs ts (omega (arith, h))

pub span_at-last :
    (ss : List InMemorySpan) (s : InMemorySpan) → span_at (length ss) (ss ++ s ∷ []) ≡ some s
unfolding span_at
span_at-last [] s = refl
span_at-last (x ∷ xs) s = span_at-last xs s

pub span_at-length :
    (i : ℕ) (ss : List InMemorySpan) (s : InMemorySpan) → span_at i ss ≡ some s → i < length ss
unfolding span_at
span_at-length i [] s e = absurd (ground (arith, e))
span_at-length zero (x ∷ xs) s e = omega arith
span_at-length (suc i) (x ∷ xs) s e = omega (arith, span_at-length i xs s e)
