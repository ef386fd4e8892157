-- ===== src/CircuitBreaker/Tripping.antt =====
-- When the breaker opens, and how it closes again
-- (src/electripy/concurrency/circuit_breaker.py).
use electripy_ai.Prelude.{
  ℕ, zero, suc, ◌+◌, ◌-◌, ◌≤◌, ◌<◌, ◌≡◌, refl, Bool, true, false, ◌||◌, List, [], ◌∷◌, arith, leb,
  Bool-cases, inl, inr, ◌∙◌, ap, if◌then◌else◌,
}
use electripy_ai.CircuitBreaker.{
  closed, open_, half_open, is, CircuitBreaker, Outcome, returned, raised, init,
  maybe_transition_to_half_open, before_call, on_success, on_failure, settle, attempt, call,
}

-- A callable that ends as the history says.
abbrev ends : Bool → Outcome (Unit {0}) (Unit {0})
ends true = returned tt
ends false = raised tt

-- The breaker after one such call that starts and ends at the given reading of the clock.
one_call : ℕ → Bool → CircuitBreaker → CircuitBreaker
one_call now o b = (call {W = Unit {0}} now now (λ w. (ends o, w)) b tt).1

-- One thread calls through the breaker, once for each entry, all at the same reading of the clock.
pub drive : ℕ → List Bool → CircuitBreaker → CircuitBreaker
drive now [] b = b
drive now (o ∷ h) b = drive now h (one_call now o b)

-- The first `n` calls failed; some `n` calls in a row failed.
pub starts_failing : ℕ → List Bool → Bool
starts_failing zero h = true
starts_failing (suc n) [] = false
starts_failing (suc n) (true ∷ h) = false
starts_failing (suc n) (false ∷ h) = starts_failing n h

pub has_streak : ℕ → List Bool → Bool
has_streak n [] = starts_failing n []
has_streak n (o ∷ h) = starts_failing n (o ∷ h) || has_streak n h

starts_failing_mono :
    (m n : ℕ) (h : List Bool) → m ≤ n → starts_failing n h ≡ true → starts_failing m h ≡ true
unfolding starts_failing
starts_failing_mono zero n h le e = refl
starts_failing_mono (suc m) zero h le e = absurd (omega arith)
starts_failing_mono (suc m) (suc n) [] le e = e
starts_failing_mono (suc m) (suc n) (true ∷ h) le e = e
starts_failing_mono (suc m) (suc n) (false ∷ h) le e = starts_failing_mono m n h (omega arith) e

has_streak_of-starts_failing :
    (n : ℕ) (h : List Bool) → starts_failing n h ≡ true → has_streak n h ≡ true
unfolding has_streak
has_streak_of-starts_failing n [] e = e
has_streak_of-starts_failing n (o ∷ h) e = ground arith

-- An open breaker whose timeout has not passed rejects each call and stays as it is.
drive_open :
    (now : ℕ) (h : List Bool) (b : CircuitBreaker)
    → b.state ≡ open_
    → now < b.opened_at + b.recovery_timeout
    → drive now h b ≡ b
unfolding drive one_call call before_call maybe_transition_to_half_open attempt
drive_open now [] b o lt = refl
drive_open now (r ∷ h) b o lt = ground (arith, drive_open now h b o lt)

call_closed :
    (now : ℕ) (o : Bool) (b : CircuitBreaker)
    → b.state ≡ closed
    → one_call now o b ≡ (if o then on_success b else on_failure now b)
unfolding one_call call before_call maybe_transition_to_half_open attempt settle
call_closed now true b c = ground arith
call_closed now false b c = ground arith

on_success_closed :
    (b : CircuitBreaker) → b.state ≡ closed → on_success b ≡ record b { failure_count = 0 }
unfolding on_success
on_success_closed b c = ground arith

abbrev opened : ℕ → CircuitBreaker → CircuitBreaker
opened now b = record b { failure_count = b.failure_count + 1; state = open_; opened_at = now }

on_failure_opens :
    (now : ℕ) (b : CircuitBreaker)
    → b.state ≡ closed
    → b.failure_threshold ≤ b.failure_count + 1
    → on_failure now b ≡ opened now b
unfolding on_failure
on_failure_opens now b c le = ground arith

on_failure_counts :
    (now : ℕ) (b : CircuitBreaker)
    → b.state ≡ closed
    → b.failure_count + 1 < b.failure_threshold
    → on_failure now b ≡ record b { failure_count = b.failure_count + 1 }
unfolding on_failure
on_failure_counts now b c lt = ground arith

or_absorb : {a b : Bool} → (a ≡ true → b ≡ true) → (a || b) ≡ b
or_absorb {a} {b} h = elim (Bool-cases a) [ inl e ↦ rw (e, h e) | inr e ↦ rw e ]

-- `gap` more failures may pass before the next one opens the breaker.
drive_closed :
    (now k gap : ℕ) (h : List Bool) (b : CircuitBreaker)
    → b.state ≡ closed
    → 0 < b.recovery_timeout
    → b.failure_threshold ≡ suc k
    → b.failure_count + gap ≡ k
    → is (drive now h b).state open_ ≡ (starts_failing (suc gap) h || has_streak (suc k) h)
unfolding drive starts_failing has_streak
drive_closed now k gap [] b c lt t g = ground arith
drive_closed now k gap (true ∷ h) b c lt t g =
    ap (λ d. is (drive now h d).state open_) (call_closed now true b c ∙ on_success_closed b c)
    ∙ drive_closed now k k h (record b { failure_count = 0 }) c lt t (omega arith)
    ∙ ground (arith, has_streak_of-starts_failing (suc k) h)
drive_closed now k zero (false ∷ h) b c lt t g =
    ap (λ d. is (drive now h d).state open_)
      (call_closed now false b c ∙ on_failure_opens now b c (omega arith))
    ∙ ap (λ d. is d.state open_) (drive_open now h (opened now b) refl (omega arith))
drive_closed now k (suc gap) (false ∷ h) b c lt t g =
    ap (λ d. is (drive now h d).state open_)
      (call_closed now false b c ∙ on_failure_counts now b c (omega arith))
    ∙ drive_closed now k gap h (record b { failure_count = b.failure_count + 1 }) c lt t
        (omega arith)
    ∙ ground (arith, starts_failing_mono (suc gap) k h (omega arith))

-- From a new breaker with a positive threshold and timeout, one thread's calls that take no time
-- leave the breaker open exactly when some `failure_threshold` calls in a row failed.
pub opens_iff_streak :
    (failures timeout successes now : ℕ) (h : List Bool)
    → 0 < failures
    → 0 < timeout
    → is (drive now h (init failures timeout successes)).state open_ ≡ has_streak failures h
unfolding init
opens_iff_streak zero timeout successes now h p q = absurd (omega arith)
opens_iff_streak (suc k) timeout successes now h p q =
    drive_closed now k k h (init (suc k) timeout successes) refl q refl (omega arith)
    ∙ or_absorb (has_streak_of-starts_failing (suc k) h)

pub successes : ℕ → List Bool
successes zero = []
successes (suc n) = true ∷ successes n

probe_step :
    (now k gap : ℕ) (b : CircuitBreaker)
    → b.state ≡ half_open
    → b.success_threshold ≡ suc k
    → b.success_count + suc gap ≡ k
    → one_call now true b ≡ record b { success_count = b.success_count + 1 }
unfolding one_call call before_call maybe_transition_to_half_open attempt settle on_success
probe_step now k gap b s t g = ground arith

probe_closes :
    (now k : ℕ) (b : CircuitBreaker)
    → b.state ≡ half_open
    → b.success_threshold ≡ suc k
    → b.success_count ≡ k
    → one_call now true b ≡ record b { state = closed; failure_count = 0; success_count = 0 }
unfolding one_call call before_call maybe_transition_to_half_open attempt settle on_success
probe_closes now k b s t g = ground arith

stays_closed :
    (now n : ℕ) (b : CircuitBreaker)
    → b.state ≡ closed
    → b.failure_count ≡ 0
    → drive now (successes n) b ≡ b
unfolding drive successes
stays_closed now zero b c z = refl
stays_closed now (suc n) b c z =
    ap (drive now (successes n)) (call_closed now true b c ∙ on_success_closed b c ∙ ground arith)
    ∙ stays_closed now n b c z

drive_probes :
    (now k gap n : ℕ) (b : CircuitBreaker)
    → b.state ≡ half_open
    → b.success_threshold ≡ suc k
    → b.success_count + gap ≡ k
    → drive now (successes n) b ≡ (
        if leb n gap
        then record b { success_count = b.success_count + n }
        else record b { state = closed; failure_count = 0; success_count = 0 })
unfolding drive successes
drive_probes now k gap zero b s t g = ground arith
drive_probes now k zero (suc n) b s t g =
    ap (drive now (successes n)) (probe_closes now k b s t (omega arith))
    ∙ stays_closed now n _ refl refl
    ∙ ground arith
drive_probes now k (suc gap) (suc n) b s t g =
    ap (drive now (successes n)) (probe_step now k gap b s t g)
    ∙ drive_probes now k gap n (record b { success_count = b.success_count + 1 }) s t (omega arith)
    ∙ ground arith

abbrev probing : CircuitBreaker → CircuitBreaker
probing b = record b { state = half_open; success_count = 0 }

one_call_elapsed :
    (now : ℕ) (o : Bool) (b : CircuitBreaker)
    → b.state ≡ open_
    → b.opened_at + b.recovery_timeout ≤ now
    → one_call now o b ≡ one_call now o (probing b)
unfolding one_call call before_call maybe_transition_to_half_open
one_call_elapsed now o b s le = ground arith

-- A breaker that is open and whose timeout has passed, with a positive success threshold: after
-- `n + 1` calls of one thread that all succeed it is closed with both counts at 0 if the threshold
-- is at most `n + 1`, and else half-open with success count `n + 1` and its other fields kept.
closes_after_successes :
    (b : CircuitBreaker) (now n : ℕ)
    → b.state ≡ open_
    → b.opened_at + b.recovery_timeout ≤ now
    → 0 < b.success_threshold
    → drive now (successes (suc n)) b ≡ (
        if leb b.success_threshold (suc n)
        then record b { state = closed; failure_count = 0; success_count = 0 }
        else record b { state = half_open; success_count = suc n })
unfolding drive successes
closes_after_successes b now n s le p =
    ap (drive now (successes n)) (one_call_elapsed now true b s le)
    ∙ drive_probes now (b.success_threshold - 1) (b.success_threshold - 1) (suc n) (probing b) refl
        (omega arith) (omega arith)
    ∙ ground arith

-- A breaker that is open and whose timeout has passed: a first call that fails opens it again from
-- the time of that failure, with one more failure counted.
pub reopens_on_failure :
    (b : CircuitBreaker) (now : ℕ)
    → b.state ≡ open_
    → b.opened_at + b.recovery_timeout ≤ now
    → drive now (false ∷ []) b ≡ record b {
      failure_count = b.failure_count + 1;
      state = open_;
      opened_at = now;
      success_count = 0;
    }
unfolding drive one_call call before_call maybe_transition_to_half_open attempt settle on_failure
reopens_on_failure b now s le = ground arith
