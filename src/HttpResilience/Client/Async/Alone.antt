-- ===== src/HttpResilience/Client/Async/Alone.antt =====
-- A task that is alone against the synchronous client
-- (src/electripy/concurrency/http_resilience/services.py).
use electripy_ai.Prelude.{
  ℕ, zero, suc, ◌+◌, ◌≤◌, ◌<◌, ◌≡◌, refl, ap, sym, ◌∙◌, Bool, true, false, Option, none, List, [],
  ◌∷◌, arith, lt→leb_false, le→leb, ◌-◌, ◌≢◌,
}
use electripy_ai.HttpResilience.Breaker.{CircuitBreaker}
use electripy_ai.HttpResilience.Retry.{ResponseData, is_idempotent_method, RetryPolicy}
use electripy_ai.HttpResilience.Client.{
  PortResult, Env, Reply, Verdict, finish, again, guarded_before, handle, admitted_round, round,
  rounds, request, allows,
}
use electripy_ai.HttpResilience.Client.Async.{
  Stage, ready, ended, Call, Task, new_task, settled, launched, resume, turn, turns, requests,
}

-- Two turns of the only task for each round.
abbrev pub two_each : ℕ → List ℕ
two_each zero = []
two_each (suc n) = 0 ∷ 0 ∷ two_each n

module _ {W : Type 0} (env : Env W) (begin : W → W) (answer : W → PortResult × W)
    (joined : (w : W) → env.send w ≡ answer (begin w)) (p : RetryPolicy) (call : Call) where
  idempotent : Bool
  idempotent = is_idempotent_method call.method

  allowed : Bool
  allowed = allows p call.allow_retry_for_non_idempotent

  in_stage : Stage × CircuitBreaker × W → List Task × CircuitBreaker × W
  in_stage s = (record { call = call; stage = s.0 } ∷ [], s.1, s.2)

  idle :
      (n : ℕ) (reply : Reply) (b : CircuitBreaker) (w : W)
      → turns env begin answer p (two_each n) (record { call = call; stage = ended reply } ∷ []) b w
        ≡ in_stage (ended reply, b, w)
  unfolding turns turn resume in_stage
  idle zero reply b w = refl
  idle (suc n) reply b w = idle n reply b w

  launched_round :
      (attempt : ℕ) (last : Option ResponseData) (g : Bool × CircuitBreaker × W)
      → resume env begin answer p call
          (launched begin attempt last g).0
          (launched begin attempt last g).1
          (launched begin attempt last g).2
        ≡ settled attempt (admitted_round env p idempotent allowed attempt last g)
  unfolding resume launched settled admitted_round idempotent allowed
  launched_round attempt last (false, b, w) = refl
  launched_round attempt last (true, b, w) =
      ap (λ r. settled attempt (handle env p idempotent allowed attempt last b r)) (sym (joined w))

  ready_turn :
      (attempt : ℕ) (last : Option ResponseData) (b : CircuitBreaker) (w : W)
      → attempt < p.max_attempts
      → resume env begin answer p call (ready attempt last) b w
        ≡ launched begin attempt last (guarded_before env b w)
  unfolding resume
  ready_turn attempt last b w more = ground (arith, lt→leb_false p.max_attempts attempt more)

  two_turns :
      (n attempt : ℕ) (last : Option ResponseData) (b : CircuitBreaker) (w : W)
      → attempt < p.max_attempts
      → turns env begin answer p
          (two_each (suc n))
          (record { call = call; stage = ready attempt last } ∷ [])
          b
          w
        ≡ (let s = in_stage (settled attempt (round env p idempotent allowed attempt last b w)) in
            turns env begin answer p (two_each n) s.0 s.1 s.2)
  unfolding turns turn resume round in_stage
  two_turns n attempt last b w more =
      let go : Stage × CircuitBreaker × W → List Task × CircuitBreaker × W =
        λ s. turns env begin answer p (two_each n) (in_stage s).0 (in_stage s).1 (in_stage s).2 in
      ap (λ s. go (resume env begin answer p call s.0 s.1 s.2)) (ready_turn attempt last b w more)
      ∙ ap go (launched_round attempt last (guarded_before env b w))

  -- The last round ends the request.
  last_round-finish :
      (attempt : ℕ) (last : Option ResponseData) (b : CircuitBreaker) (w : W)
      → p.max_attempts ≤ attempt + 1
      → (l : Option ResponseData) → (round env p idempotent allowed attempt last b w).0 ≢ again l
  unfolding round admitted_round handle
  last_round-finish attempt last b w end l e =
      ground (arith, e, le→leb (p.max_attempts - 1) attempt (omega (arith, end)))

  -- What the loop comes to after a round.
  continued : ℕ → ℕ → Verdict → CircuitBreaker → W → Reply × CircuitBreaker × W
  continued left attempt v b w = elim v [
    | finish reply ↦ (reply, b, w)
    | again last ↦ rounds env p idempotent allowed left (attempt + 1) last b w
  ]

  at_end : Reply × CircuitBreaker × W → List Task × CircuitBreaker × W
  at_end r = in_stage (ended r.0, r.1, r.2)

  from_stage : ℕ → Stage × CircuitBreaker × W → List Task × CircuitBreaker × W
  from_stage n s =
      turns env begin answer p (two_each n) (in_stage s).0 (in_stage s).1 (in_stage s).2

  continued_turns :
      (left attempt : ℕ) (v : Verdict) (b : CircuitBreaker) (w : W)
      → ((l : Option ResponseData)
          → v ≡ again l
          → from_stage left (ready (attempt + 1) l, b, w)
            ≡ at_end (rounds env p idempotent allowed left (attempt + 1) l b w))
      → from_stage left (settled attempt (v, b, w)) ≡ at_end (continued left attempt v b w)
  unfolding settled continued from_stage at_end in_stage
  continued_turns left attempt (finish reply) b w more = idle left reply b w
  continued_turns left attempt (again l) b w more = more l refl

  rounds_turns :
      (left attempt : ℕ) (last : Option ResponseData) (b : CircuitBreaker) (w : W)
      → attempt + suc left ≡ p.max_attempts
      → from_stage (suc left) (ready attempt last, b, w)
        ≡ at_end (rounds env p idempotent allowed (suc left) attempt last b w)
  unfolding rounds continued from_stage in_stage
  rounds_turns zero attempt last b w total =
      let r = round env p idempotent allowed attempt last b w in
      let end = last_round-finish attempt last b w (omega (arith, total)) in
      two_turns zero attempt last b w (omega (arith, total))
      ∙ continued_turns zero attempt r.0 r.1 r.2 (λ l e. absurd (end l e))
  rounds_turns (suc left) attempt last b w total =
      let r = round env p idempotent allowed attempt last b w in
      two_turns (suc left) attempt last b w (omega (arith, total))
      ∙ continued_turns (suc left) attempt r.0 r.1 r.2
          (λ l e. rounds_turns left (attempt + 1) l r.1 r.2 (omega (arith, total)))

  all_turns :
      (n : ℕ) (b : CircuitBreaker) (w : W)
      → 0 < n
      → n ≡ p.max_attempts
      → from_stage n (ready 0 none, b, w) ≡ at_end (rounds env p idempotent allowed n 0 none b w)
  all_turns zero b w pos e = absurd (omega (arith, pos))
  all_turns (suc n) b w pos e = rounds_turns n 0 none b w (omega (arith, e))

-- With a port whose synchronous `send` is to begin a request and take its answer, and at least one
-- attempt: a request that is the only task ends within two turns for each attempt, in the reply of the
-- synchronous client, and leaves the breaker and the world as that client does.
pub alone_as_synchronous :
    {W : Type 0} (env : Env W) (begin : W → W) (answer : W → PortResult × W)
    → ((w : W) → env.send w ≡ answer (begin w))
    → (p : RetryPolicy) (call : Call) (b : CircuitBreaker) (w : W) → 0 < p.max_attempts
    → requests env begin answer p (two_each p.max_attempts) (call ∷ []) b w ≡ (
        let (reply, b', w') = request env p call.method call.allow_retry_for_non_idempotent b w in
        (record { call = call; stage = ended reply } ∷ [], b', w'))
unfolding requests request new_task idempotent allowed from_stage in_stage at_end
alone_as_synchronous env begin answer joined p call b w pos =
    all_turns env begin answer joined p call p.max_attempts b w pos refl
