-- ===== src/RateLimiter/Bucket.antt =====
-- What the token bucket of src/electripy/concurrency/rate_limiter.py grants.
use electripy_ai.Prelude.{
  ℕ, zero, suc, ◌+◌, ◌-◌, ◌*◌, ◌≤◌, ◌≡◌, refl, ap, ◌∙◌, List, [], ◌∷◌, ltb, leb, ◌==◌, by_cases,
  arith, true, leb→le, Option,
}
use electripy_ai.RateLimiter.{
  RateLimiter, or_rate, new_limiter, refill, Acquired, granted, value_error, zero_division,
  unfinished, Clock, acquire_rounds, acquire,
}

-- The world's time, which the clock reads and which never goes back.
pub record Monotonic {W : Type 0} (clock : Clock W) (time : W → ℕ) : Type 0 where
  pub read : (w : W) → (clock.now w).0 ≡ time (clock.now w).1
  pub reading : (w : W) → time w ≤ time (clock.now w).1
  pub sleeping : (needed rate : ℕ) (w : W) → time w ≤ time (clock.sleep needed rate w)

abbrev pub granted_of : Acquired → ℕ → ℕ
granted_of granted amount = amount
granted_of value_error amount = 0
granted_of zero_division amount = 0
granted_of unfinished amount = 0

module _ {W : Type 0} (clock : Clock W) where
  -- Calls one after another, each with its number of rounds and its amount: the tokens granted, and what is
  -- left.
  abbrev pub acquire_all : List (ℕ × ℕ) → RateLimiter → W → ℕ × RateLimiter × W
  acquire_all [] l w = (0, l, w)
  acquire_all ((rounds, amount) ∷ calls) l w =
      let (a, l1, w1) = acquire clock rounds amount l w in
      let (total, l2, w2) = acquire_all calls l1 w1 in (granted_of a amount + total, l2, w2)

  module _ (time : W → ℕ) (monotonic : Monotonic clock time) where
    -- What a call that grants `n` tokens does to a bucket of a rate.
    record Spent (rate : ℕ) (l : RateLimiter) (n : ℕ) (l' : RateLimiter) (w' : W) : Type 0 where
      same : (l'.capacity ≡ l.capacity) × (l'.rate ≡ rate)
      full : l'.tokens ≤ l'.capacity
      later : (l.last_update ≤ l'.last_update) × (l'.last_update ≤ time w')
      paid : n + l'.tokens + l.last_update * rate ≤ l.tokens + l'.last_update * rate

    Spent-trans :
        (rate : ℕ) (l : RateLimiter) (m n total : ℕ) (l' l'' : RateLimiter) (w' w'' : W)
        → total ≡ m + n
        → Spent rate l m l' w'
        → Spent rate l' n l'' w''
        → Spent rate l total l'' w''
    Spent-trans rate l m n total l' l'' w' w'' sum s r = record {
      same = (r.same.0 ∙ s.same.0, r.same.1);
      full = r.full;
      later = (omega (arith, s.later.0, r.later.0), r.later.1);
      paid = omega (arith, sum, s.paid, r.paid);
    }

    elapsed : (last now rate : ℕ) → last ≤ now → (now - last) * rate + last * rate ≡ now * rate
    elapsed last now rate h = grind (arith, h)

    refill-Spent :
        (rate now : ℕ) (l : RateLimiter) (w : W)
        → l.rate ≡ rate
        → l.last_update ≤ now
        → now ≤ time w
        → Spent rate l 0 (refill now l) w
    unfolding refill
    refill-Spent rate now l w e h before = record {
      same = (refl, e);
      full = omega arith;
      later = (h, before);
      paid = omega (arith, ap (λ r. (now - l.last_update) * r) e, elapsed l.last_update now rate h);
    }

    granted-Spent :
        (rate amount : ℕ) (l l1 : RateLimiter) (w : W)
        → Spent rate l 0 l1 w
        → leb amount l1.tokens ≡ true
        → Spent rate l amount (record l1 { tokens = l1.tokens - amount }) w
    granted-Spent rate amount l l1 w s enough =
        let le = leb→le amount l1.tokens enough in
        record {
          same = s.same;
          full = omega (arith, s.full);
          later = s.later;
          paid = omega (arith, s.paid, le);
        }

    SpentAfter : (rate amount : ℕ) (l : RateLimiter) (result : Acquired × RateLimiter × W) → Type 0
    SpentAfter rate amount l result = Spent rate l (granted_of result.0 amount) result.1 result.2

    rounds-Spent :
        (rate rounds amount : ℕ) (l : RateLimiter) (w : W)
        → l.rate ≡ rate
        → l.tokens ≤ l.capacity
        → l.last_update ≤ time w
        → SpentAfter rate amount l (acquire_rounds clock rounds amount l w)
    unfolding acquire_rounds SpentAfter
    rounds-Spent rate zero amount l w e full before = record {
      same = (refl, e);
      full = full;
      later = (omega arith, before);
      paid = omega arith;
    }
    rounds-Spent rate (suc rounds) amount l w e full before =
        let (t, w1) = clock.now w in
        let l1 = refill t l in
        let w2 = clock.sleep (amount - l1.tokens) l1.rate w1 in
        let s =
          refill-Spent rate t l w1 e (omega (arith, monotonic.read w, monotonic.reading w, before))
            (omega (arith, monotonic.read w)) in
        let rest =
          rounds-Spent rate rounds amount l1 w2 s.same.1 s.full
            (omega (arith, s.later.1, monotonic.sleeping (amount - l1.tokens) l1.rate w1)) in
        let (a, l2, w3) = acquire_rounds clock rounds amount l1 w2 in
        by_cases (SpentAfter rate amount l) (leb amount l1.tokens)
          (λ enough. granted-Spent rate amount l l1 w1 s enough)
          (λ _.
            by_cases (SpentAfter rate amount l) (l1.rate == 0) (λ _. s)
              (λ _.
                Spent-trans rate l 0 (granted_of a amount) (granted_of a amount) l1 l2 w1 w3
                  (omega arith) s rest))

    acquire-Spent :
        (rate rounds amount : ℕ) (l : RateLimiter) (w : W)
        → l.rate ≡ rate
        → l.tokens ≤ l.capacity
        → l.last_update ≤ time w
        → SpentAfter rate amount l (acquire clock rounds amount l w)
    unfolding acquire SpentAfter
    acquire-Spent rate rounds amount l w e full before =
        by_cases (SpentAfter rate amount l) (ltb l.capacity amount)
          (λ _. record {
            same = (refl, e);
            full = full;
            later = (omega arith, before);
            paid = omega arith;
          })
          (λ _. rounds-Spent rate rounds amount l w e full before)

    all-Spent :
        (rate : ℕ) (calls : List (ℕ × ℕ)) (l : RateLimiter) (w : W)
        → l.rate ≡ rate
        → l.tokens ≤ l.capacity
        → l.last_update ≤ time w
        → (let (total, l', w') = acquire_all calls l w in Spent rate l total l' w')
    unfolding SpentAfter
    all-Spent rate [] l w e full before = record {
      same = (refl, e);
      full = full;
      later = (omega arith, before);
      paid = omega arith;
    }
    all-Spent rate ((rounds, amount) ∷ calls) l w e full before =
        let (a, l1, w1) = acquire clock rounds amount l w in
        let (total, l2, w2) = acquire_all calls l1 w1 in
        let s = acquire-Spent rate rounds amount l w e full before in
        Spent-trans rate l (granted_of a amount) total (granted_of a amount + total) l1 l2 w1 w2
          refl s (all-Spent rate calls l1 w1 s.same.1 s.full s.later.1)

-- With a clock that never goes back: the tokens that a new limiter grants to any calls, one after another,
-- are at most its capacity and what comes in at its rate from its start to its last update, a time that
-- has passed; and the bucket never holds more than its capacity.
pub grants_bounded :
    {W : Type 0} (clock : Clock W) (time : W → ℕ)
    → Monotonic clock time
    → (rate : ℕ) (capacity : Option ℕ) (calls : List (ℕ × ℕ)) (w : W)
    → (let (total, l, w') = acquire_all clock calls (new_limiter rate capacity (time w)) w in
        (total ≤ or_rate capacity rate + (l.last_update - time w) * rate)
        × (l.last_update ≤ time w')
        × (l.tokens ≤ or_rate capacity rate))
unfolding new_limiter
grants_bounded clock time monotonic rate capacity calls w =
    let start = new_limiter rate capacity (time w) in
    let s = all-Spent clock time monotonic rate calls start w refl (omega arith) (omega arith) in
    let (total, l, w') = acquire_all clock calls start w in
    (
      omega (arith, s.paid, elapsed clock time monotonic (time w) l.last_update rate s.later.0),
      s.later.1,
      omega (arith, s.full, s.same.0),
    )
