-- ===== src/RateLimiter.antt =====
-- `AsyncTokenBucketRateLimiter` of src/electripy/concurrency/rate_limiter.py. Rates, tokens and times are
-- natural numbers, tokens in parts of one token; the clock does not go back, so a time that has passed
-- is no negative number. The monotonic clock and `asyncio.sleep` act on a world of
-- the caller's choice, where `sleep needed rate` stands for the pause of `needed / rate`. The lock makes an
-- `acquire` atomic, its pauses included, so several tasks are a list of calls.
pub mod Bucket
pub mod Waits
mod Tests
use electripy_ai.Prelude.{
  ℕ, zero, suc, ◌+◌, ◌-◌, ◌*◌, Option, none, some, min, ltb, leb, ◌==◌, if◌then◌else◌, Bool, true,
  false,
}

pub record RateLimiter : Type 0 where
  pub rate : ℕ
  pub capacity : ℕ
  pub tokens : ℕ
  pub last_update : ℕ

-- `capacity or rate`.
unfoldable pub or_rate : Option ℕ → ℕ → ℕ
or_rate none rate = rate
or_rate (some capacity) rate = if capacity == 0 then rate else capacity

unfoldable pub new_limiter : ℕ → Option ℕ → ℕ → RateLimiter
new_limiter rate capacity now = record {
  rate = rate;
  capacity = or_rate capacity rate;
  tokens = or_rate capacity rate;
  last_update = now;
}

unfoldable pub refill : ℕ → RateLimiter → RateLimiter
refill now l = record l {
  tokens = min l.capacity (l.tokens + (now - l.last_update) * l.rate);
  last_update = now;
}

unfoldable pub available_tokens : ℕ → RateLimiter → ℕ
available_tokens now l = min l.capacity (l.tokens + (now - l.last_update) * l.rate)

-- How `acquire` ends: `value_error` where it asks for more than the capacity, `zero_division` where it has to
-- wait and the rate is zero, `unfinished` where the rounds are used up.
pub data Acquired : Type 0 where
  granted value_error zero_division unfinished : Acquired

pub record Clock (W : Type 0) : Type 0 where
  pub now : W → ℕ × W
  pub sleep : ℕ → ℕ → W → W

module _ {W : Type 0} (clock : Clock W) where
  -- The loop, for a number of rounds.
  unfoldable pub acquire_rounds : ℕ → ℕ → RateLimiter → W → Acquired × RateLimiter × W
  acquire_rounds zero amount l w = (unfinished, l, w)
  acquire_rounds (suc rounds) amount l w =
      let (t, w1) = clock.now w in
      let l1 = refill t l in
      let later = acquire_rounds rounds amount l1 (clock.sleep (amount - l1.tokens) l1.rate w1) in
      if leb amount l1.tokens
      then (granted, record l1 { tokens = l1.tokens - amount }, w1)
      else if l1.rate == 0
      then (zero_division, l1, w1)
      else later

  unfoldable pub acquire : ℕ → ℕ → RateLimiter → W → Acquired × RateLimiter × W
  acquire rounds amount l w =
      if ltb l.capacity amount then (value_error, l, w) else acquire_rounds rounds amount l w
