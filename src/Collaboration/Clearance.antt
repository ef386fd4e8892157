-- ===== src/Collaboration/Clearance.antt =====
-- What agents get to handle (src/electripy/ai/agent_collaboration/services.py): the policy gateway
-- stands before every message.
use electripy_ai.Prelude.{
  ℕ, zero, suc, ◌≡◌, refl, sym, ap, ◌∙◌, some-injective, arith, ◌⊎◌, inl, inr, String, Bool, true,
  false, Option, none, some, List, [], ◌∷◌, ◌++◌, All, All-append, if◌then◌else◌,
}
use electripy_ai.Collaboration.{
  CollaborationTask, AgentMessage, PolicyAction, allow, deny, require_approval, sanitize, passed,
  PolicyGateway, Turn, turn, raised, Outcome, Runtime, Round, finish, again, Handoffs, appended,
  blocked_at, prepend, inbound, review_handoff, hand_off, sorted_messages, next_round, after_turn,
  deliver, dispatch, loop, run, initial, ended, or_completed,
}

-- The message is the caller's, or what the gateway's review made of one that an agent handed off.
abbrev pub Origin : Option PolicyGateway → AgentMessage → AgentMessage → Type 0
Origin gateway first m =
    (m ≡ first) ⊎ ((produced : AgentMessage) × review_handoff gateway produced ≡ some m)

-- The message is what the gateway's preflight made of such a message.
abbrev pub Cleared : Option PolicyGateway → AgentMessage → AgentMessage → Type 0
Cleared gateway first m =
    (raw : AgentMessage) × Origin gateway first raw × inbound gateway raw ≡ some m

same_agent : (m n : AgentMessage) → some m ≡ some n → n.to_agent ≡ m.to_agent
same_agent m n e = ap (λ (x : AgentMessage). x.to_agent) (sym (some-injective m n e))

to_agent-passed :
    (action : PolicyAction) (m n : AgentMessage)
    → passed action m ≡ some n
    → n.to_agent ≡ m.to_agent
unfolding passed
to_agent-passed allow m n e = same_agent _ n e
to_agent-passed deny m n e = ground (arith, e)
to_agent-passed require_approval m n e = ground (arith, e)
to_agent-passed (sanitize none) m n e = same_agent _ n e
to_agent-passed (sanitize (some text)) m n e = same_agent _ n e

to_agent-inbound :
    (gateway : Option PolicyGateway) (m n : AgentMessage)
    → inbound gateway m ≡ some n
    → n.to_agent ≡ m.to_agent
unfolding inbound
to_agent-inbound none m n e = same_agent _ n e
to_agent-inbound (some gateway) m n e = to_agent-passed (gateway.evaluate_preflight m.content) m n e

abbrev Queued : Option PolicyGateway → AgentMessage → Handoffs → Type 0
Queued gateway first (appended ms) = All (Origin gateway first) ms
Queued gateway first (blocked_at m) = Unit

module _ (gateway : Option PolicyGateway) (first : AgentMessage) where
  Queued-prepend :
      (m : AgentMessage) (rest : Handoffs)
      → Origin gateway first m
      → Queued gateway first rest
      → Queued gateway first (prepend m rest)
  unfolding prepend
  Queued-prepend m (appended ms) o q = (o, q)
  Queued-prepend m (blocked_at n) o q = q

  -- What the loop does with a produced message, by its review.
  Queued-review :
      (fail : Bool) (m : AgentMessage) (rest : Handoffs) (reviewed : Option AgentMessage)
      → review_handoff gateway m ≡ reviewed
      → Queued gateway first rest
      → Queued gateway first
          (elim reviewed [ none ↦ if fail then blocked_at m else rest | some r ↦ prepend r rest ])
  Queued-review true m rest none e q = tt
  Queued-review false m rest none e q = q
  Queued-review fail m rest (some r) e q = Queued-prepend r rest (inr (m, e)) q

  Queued-hand_off :
      (fail : Bool) (ms : List AgentMessage) → Queued gateway first (hand_off gateway fail ms)
  unfolding hand_off
  Queued-hand_off fail [] = tt
  Queued-hand_off fail (m ∷ ms) =
      Queued-review fail m (hand_off gateway fail ms) (review_handoff gateway m) refl
        (Queued-hand_off fail ms)

module _ {W : Type 0} (rt : Runtime W) (task : CollaborationTask) (first : AgentMessage)
    (P : W → Type 0) where
  -- The property survives every message that is cleared and handled by the agent that it names.
  abbrev pub KeptByCleared : Type 0
  KeptByCleared =
      (handle : AgentMessage → W → Turn × W) (m : AgentMessage) (w : W)
      → rt.handle m.to_agent ≡ some handle
      → Cleared rt.policy_gateway first m
      → P w
      → P (handle m w).1

  abbrev Continues : Round → Type 0
  Continues (finish outcome) = Unit
  Continues (again queue transcript) = All (Origin rt.policy_gateway first) queue

  Continues-next_round :
      (hops : ℕ) (queue transcript : List AgentMessage) (handoffs : Handoffs)
      → All (Origin rt.policy_gateway first) queue
      → Queued rt.policy_gateway first handoffs
      → Continues (next_round rt task hops queue transcript handoffs)
  unfolding next_round
  Continues-next_round hops queue transcript (appended ms) all q =
      All-append (Origin rt.policy_gateway first) queue ms all q
  Continues-next_round hops queue transcript (blocked_at m) all q = tt

  Continues-if :
      (b : Bool) (x y : Round) → Continues x → Continues y → Continues (if b then x else y)
  Continues-if true x y cx cy = cx
  Continues-if false x y cx cy = cy

  Continues-after_turn :
      (hops : ℕ) (queue transcript : List AgentMessage) (t : Turn)
      → All (Origin rt.policy_gateway first) queue
      → Continues (after_turn rt task hops queue transcript t)
  unfolding after_turn
  Continues-after_turn hops queue transcript raised all = tt
  Continues-after_turn hops queue transcript (turn t) all =
      let produced = sorted_messages t.produced_messages in
      let handoffs = hand_off rt.policy_gateway rt.settings.fail_on_blocked_handoff produced in
      Continues-if t.completed
        (finish (ended rt task true (or_completed t.outcome) hops (transcript ++ produced)))
        (next_round rt task hops queue transcript handoffs) tt
        (Continues-next_round hops queue transcript handoffs all
          (Queued-hand_off rt.policy_gateway first rt.settings.fail_on_blocked_handoff produced))

  module _ (kept : KeptByCleared) where
    Continues-deliver :
        (handle : AgentMessage → W → Turn × W) (hops : ℕ) (queue transcript : List AgentMessage)
        (current : AgentMessage) (cleared : Option AgentMessage) (w : W)
        → rt.handle current.to_agent ≡ some handle
        → inbound rt.policy_gateway current ≡ cleared
        → Origin rt.policy_gateway first current
        → All (Origin rt.policy_gateway first) queue
        → P w
        → let (round, w') = deliver rt task handle hops queue transcript current cleared w in
          Continues round × P w'
    unfolding deliver
    Continues-deliver handle hops queue transcript current none w h e o all p = (tt, p)
    Continues-deliver handle hops queue transcript current (some m) w h e o all p = (
      Continues-after_turn hops queue (transcript ++ m ∷ []) (handle m w).0 all,
      kept handle m w (ap rt.handle (to_agent-inbound rt.policy_gateway current m e) ∙ h)
          (current, o, e) p,
    )

    Continues-dispatch :
        (found : Option (AgentMessage → W → Turn × W)) (hops : ℕ)
        (queue transcript : List AgentMessage) (current : AgentMessage) (w : W)
        → rt.handle current.to_agent ≡ found
        → Origin rt.policy_gateway first current
        → All (Origin rt.policy_gateway first) queue
        → P w
        → let (round, w') = dispatch rt task found hops queue transcript current w in
          Continues round × P w'
    unfolding dispatch
    Continues-dispatch none hops queue transcript current w h o all p = (tt, p)
    Continues-dispatch (some handle) hops queue transcript current w h o all p =
        Continues-deliver handle hops queue transcript current (inbound rt.policy_gateway current) w
          h refl o all p

    kept-round :
        (left hops : ℕ) (round : Round) (w : W)
        → ((queue transcript : List AgentMessage) (v : W)
            → All (Origin rt.policy_gateway first) queue
            → P v
            → P (loop rt task left (suc hops) queue transcript v).1)
        → Continues round
        → P w
        → let ended_in : Outcome × W = elim round [
          | finish outcome ↦ (outcome, w)
          | again queue transcript ↦ loop rt task left (suc hops) queue transcript w
        ] in
          P ended_in.1
    kept-round left hops (finish outcome) w rest c p = p
    kept-round left hops (again queue transcript) w rest c p = rest queue transcript w c p

    kept-loop :
        (left hops : ℕ) (queue transcript : List AgentMessage) (w : W)
        → All (Origin rt.policy_gateway first) queue
        → P w
        → P (loop rt task left hops queue transcript w).1
    unfolding loop
    kept-loop left hops [] transcript w all p = p
    kept-loop zero hops (current ∷ queue) transcript w all p = p
    kept-loop (suc left) hops (current ∷ queue) transcript w all p =
        let (round, w') =
          dispatch rt task (rt.handle current.to_agent) (suc hops) queue transcript current w in
        let (c, p') =
          Continues-dispatch (rt.handle current.to_agent) (suc hops) queue transcript current w refl
            all.0 all.1 p in
        kept-round left hops round w' (kept-loop left (suc hops)) c p'

-- A run keeps every property of the world that each cleared message keeps: what an agent handles is
-- addressed to it, has passed the gateway's preflight, and is the caller's message or has passed the
-- gateway's review when an agent handed it off, where there is a gateway.
pub run_cleared :
    {W : Type 0} (rt : Runtime W) (task : CollaborationTask) (P : W → Type 0)
    (entry_agent input_text : String) (trace_id : Option String) (now : ℕ) (w : W)
    → KeptByCleared rt task (initial rt task entry_agent input_text trace_id now) P
    → P w
    → P (run rt task entry_agent input_text trace_id now w).1
unfolding run
run_cleared rt task P entry_agent input_text trace_id now w kept p =
    let first = initial rt task entry_agent input_text trace_id now in
    kept-loop rt task first P kept rt.settings.max_hops 0 (first ∷ []) [] w (inl refl, tt) p
