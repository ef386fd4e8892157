-- ===== src/HttpResilience/Client/Async/Turns.antt =====
-- Requests that interleave (src/electripy/concurrency/http_resilience/services.py): each ends, and the
-- requests sent are bounded.
use electripy_ai.Prelude.{
  ℕ, zero, suc, ◌+◌, ◌-◌, ◌*◌, ◌≤◌, ◌<◌, ◌≡◌, refl, ap, ◌∙◌, Bool, true, false, Option, none, some,
  List, [], ◌∷◌, map, length, All, arith, if◌then◌else◌, ◌==◌, by_cases, leb,
}
use electripy_ai.HttpResilience.Breaker.{CircuitBreaker}
use electripy_ai.HttpResilience.Retry.{ResponseData, is_idempotent_method, RetryPolicy}
use electripy_ai.HttpResilience.Client.{
  PortResult, response, http_error, crash, Env, Reply, Verdict, finish, again, guarded_before,
  handle, allows,
}
use electripy_ai.HttpResilience.Client.Async.{
  Stage, ready, awaiting, ended, Call, Task, new_task, settled, launched, resume, turn, turns,
  requests,
}

-- The stage of one task.
abbrev pub stage_at : ℕ → List Task → Option Stage
stage_at i [] = none
stage_at zero (t ∷ ts) = some t.stage
stage_at (suc i) (t ∷ ts) = stage_at i ts

-- How many turns a schedule gives a task.
abbrev pub turns_of : ℕ → List ℕ → ℕ
turns_of i [] = 0
turns_of i (j ∷ js) = (if j == i then 1 else 0) + turns_of i js

-- A task that has not ended is in one of its rounds.
abbrev Live : RetryPolicy → Stage → Type 0
Live p (ready attempt last) = attempt < p.max_attempts
Live p (awaiting attempt last) = attempt < p.max_attempts
Live p (ended reply) = Unit

-- The turns that a stage may need.
abbrev left : RetryPolicy → Stage → ℕ
left p (ready attempt last) = 2 * (p.max_attempts - attempt)
left p (awaiting attempt last) = 2 * (p.max_attempts - attempt - 1) + 1
left p (ended reply) = 0

abbrev left_at : RetryPolicy → ℕ → List Task → ℕ
left_at p i [] = 0
left_at p zero (t ∷ ts) = left p t.stage
left_at p (suc i) (t ∷ ts) = left_at p i ts

module _ {W : Type 0} (env : Env W) (begin : W → W) (answer : W → PortResult × W)
    (p : RetryPolicy) where
  -- The last round does not go on.
  pub handle-again :
      (i a : Bool) (attempt : ℕ) (last l : Option ResponseData) (b : CircuitBreaker)
      (r : PortResult) (w : W)
      → (handle env p i a attempt last b (r, w)).0 ≡ again l
      → attempt + 1 < p.max_attempts
  unfolding handle
  handle-again i a attempt last l b crash w e = ground (arith, e)
  handle-again i a attempt last l b (http_error x) w e = ground (arith, e)
  handle-again i a attempt last l b (response x) w e = ground (arith, e)

  launched-left :
      (attempt : ℕ) (last : Option ResponseData) (g : Bool × CircuitBreaker × W)
      → attempt < p.max_attempts
      → Live p (launched begin attempt last g).0
        × (left p (launched begin attempt last g).0 + 1 ≤ 2 * (p.max_attempts - attempt))
  unfolding launched
  launched-left attempt last (false, b, w) h = (tt, omega (arith, h))
  launched-left attempt last (true, b, w) h = (h, omega (arith, h))

  settled-left :
      (attempt : ℕ) (v : Verdict) (b : CircuitBreaker) (w : W)
      → ((l : Option ResponseData) → v ≡ again l → attempt + 1 < p.max_attempts)
      → Live p (settled attempt (v, b, w)).0
        × (left p (settled attempt (v, b, w)).0 ≤ 2 * (p.max_attempts - attempt - 1))
  unfolding settled
  settled-left attempt (finish reply) b w h = (tt, omega arith)
  settled-left attempt (again l) b w h = (h l refl, omega (arith, h l refl))

  resume-left :
      (call : Call) (s : Stage) (b : CircuitBreaker) (w : W)
      → Live p s
      → Live p (resume env begin answer p call s b w).0
        × (left p (resume env begin answer p call s b w).0 ≤ left p s - 1)
  unfolding resume
  resume-left call (ready attempt last) b w h =
      let (live, less) = launched-left attempt last (guarded_before env b w) h in
      by_cases
        (λ (x : Stage × CircuitBreaker × W).
          Live p x.0 × (left p x.0 ≤ 2 * (p.max_attempts - attempt) - 1))
        (leb p.max_attempts attempt) (λ over. absurd (ground (arith, over, h)))
        (λ _. (live, omega (arith, less)))
  resume-left call (awaiting attempt last) b w h =
      let (r, w') = answer w in
      let i = is_idempotent_method call.method in
      let a = allows p call.allow_retry_for_non_idempotent in
      let (v, b', w'') = handle env p i a attempt last b (r, w') in
      let (live, less) =
        settled-left attempt v b' w'' (λ l. handle-again i a attempt last l b r w') in
      (live, omega (arith, less))
  resume-left call (ended reply) b w h = (tt, omega arith)

  turn-left :
      (j : ℕ) (ts : List Task) (b : CircuitBreaker) (w : W)
      → All (λ t. Live p t.stage) ts
      → All (λ t. Live p t.stage) (turn env begin answer p j ts b w).0
        × ((i : ℕ)
            → left_at p i (turn env begin answer p j ts b w).0
              ≤ left_at p i ts - (if j == i then 1 else 0))
  unfolding turn
  turn-left j [] b w h = (tt, λ i. omega arith)
  turn-left zero (t ∷ ts) b w h =
      let (live, less) = resume-left t.call t.stage b w h.0 in
      ((live, h.1), elim [ zero ↦ ground (arith, less) | suc i ↦ ground arith ])
  turn-left (suc j) (t ∷ ts) b w h =
      let (live, less) = turn-left j ts b w h.1 in
      ((h.0, live), elim [ zero ↦ ground arith | suc i ↦ ground (arith, less i) ])

  turns-left :
      (schedule : List ℕ) (ts : List Task) (b : CircuitBreaker) (w : W)
      → All (λ t. Live p t.stage) ts
      → All (λ t. Live p t.stage) (turns env begin answer p schedule ts b w).0
        × ((i : ℕ)
            → left_at p i (turns env begin answer p schedule ts b w).0
              ≤ left_at p i ts - turns_of i schedule)
  unfolding turns
  turns-left [] ts b w h = (h, λ i. omega arith)
  turns-left (j ∷ js) ts b w h =
      let (ts', b', w') = turn env begin answer p j ts b w in
      let (live, less) = turn-left j ts b w h in
      let (lives, rest) = turns-left js ts' b' w' live in
      (lives, λ i. ground (arith, less i, rest i))

  length-turn :
      (j : ℕ) (ts : List Task) (b : CircuitBreaker) (w : W)
      → length (turn env begin answer p j ts b w).0 ≡ length ts
  unfolding turn
  length-turn j [] b w = refl
  length-turn zero (t ∷ ts) b w = refl
  length-turn (suc j) (t ∷ ts) b w = ap suc (length-turn j ts b w)

  length-turns :
      (schedule : List ℕ) (ts : List Task) (b : CircuitBreaker) (w : W)
      → length (turns env begin answer p schedule ts b w).0 ≡ length ts
  unfolding turns
  length-turns [] ts b w = refl
  length-turns (j ∷ js) ts b w =
      let (ts', b', w') = turn env begin answer p j ts b w in
      length-turns js ts' b' w' ∙ length-turn j ts b w

stage_ended :
    (p : RetryPolicy) (s : Stage)
    → left p s ≡ 0
    → Live p s
    → (reply : Reply) × (some s ≡ some (ended reply))
stage_ended p (ready attempt last) e h = absurd (omega (arith, e, h))
stage_ended p (awaiting attempt last) e h = absurd (omega (arith, e))
stage_ended p (ended reply) e h = (reply, refl)

-- With no turn left, a task has ended.
left_none :
    (p : RetryPolicy) (i : ℕ) (ts : List Task)
    → i < length ts
    → left_at p i ts ≡ 0
    → All (λ t. Live p t.stage) ts
    → (reply : Reply) × (stage_at i ts ≡ some (ended reply))
left_none p i [] h e live = absurd (omega (arith, h))
left_none p zero (t ∷ ts) h e live = stage_ended p t.stage e live.0
left_none p (suc i) (t ∷ ts) h e live = left_none p i ts (omega (arith, h)) e live.1

new-Live :
    (p : RetryPolicy) (calls : List Call)
    → 0 < p.max_attempts
    → All (λ t. Live p t.stage) (map new_task calls)
      × ((i : ℕ) → left_at p i (map new_task calls) ≤ 2 * p.max_attempts)
      × (length (map new_task calls) ≡ length calls)
unfolding new_task
new-Live p [] pos = (tt, λ i. omega arith, refl)
new-Live p (c ∷ cs) pos =
    let (lives, less, same) = new-Live p cs pos in
    ((pos, lives), elim [ zero ↦ omega arith | suc i ↦ less i ], ap suc same)

-- However requests that share a breaker interleave: with at least one attempt, each of them has ended once
-- the schedule has given it two turns for each attempt, whatever the port, the clock and the breaker do.
pub requests_end :
    {W : Type 0} (env : Env W) (begin : W → W) (answer : W → PortResult × W) (p : RetryPolicy)
    (schedule : List ℕ) (calls : List Call) (b : CircuitBreaker) (w : W) (i : ℕ)
    → 0 < p.max_attempts
    → i < length calls
    → 2 * p.max_attempts ≤ turns_of i schedule
    → (reply : Reply) × (stage_at i (requests env begin answer p schedule calls b w).0
        ≡ some (ended reply))
unfolding requests
requests_end env begin answer p schedule calls b w i pos there enough =
    let (live, most, same) = new-Live p calls pos in
    let (lives, less) = turns-left env begin answer p schedule (map new_task calls) b w live in
    let kept = length-turns env begin answer p schedule (map new_task calls) b w in
    left_none p i (turns env begin answer p schedule (map new_task calls) b w).0
      (omega (arith, kept, same, there)) (omega (arith, less i, most i, enough)) lives
