-- ===== src/Collaboration/Hops.antt =====
-- The bound on hops of src/electripy/ai/agent_collaboration/services.py.
use electripy_ai.Prelude.{
  ℕ, zero, suc, ◌+◌, ◌≤◌, ◌≡◌, refl, String, Bool, true, false, Option, none, some, List, [], ◌∷◌,
  ◌++◌, arith, if◌then◌else◌,
}
use electripy_ai.Collaboration.{
  CollaborationTask, AgentMessage, Turn, turn, raised, Outcome, result, hop_limit_exceeded, Runtime,
  Round, finish, again, Handoffs, appended, blocked_at, next_round, after_turn, deliver, dispatch,
  inbound, hand_off, sorted_messages, loop, or_completed, run, initial, ended,
}

abbrev pub is_hop_limit : Outcome → Bool
is_hop_limit hop_limit_exceeded = true
is_hop_limit _ = false

-- The hops that a result states; an exception states none.
abbrev pub stated_hops : Outcome → ℕ
stated_hops (result r) = r.hop_count
stated_hops _ = 0

module _ {W : Type 0} (rt : Runtime W) (task : CollaborationTask) (count : W → ℕ) where
  -- The world counts the messages that agents handle.
  abbrev pub Counts : Type 0
  Counts =
      (name : String) (handle : AgentMessage → W → Turn × W)
      → rt.handle name ≡ some handle
      → (m : AgentMessage) (w : W) → count (handle m w).1 ≡ count w + 1

  -- A round that goes on has handled one message; one that ends has handled one at most.
  abbrev Fair : ℕ → ℕ → Round → W → Type 0
  Fair hops handled (again queue transcript) w = count w ≡ handled + 1
  Fair hops handled (finish outcome) w =
      (count w ≤ handled + 1) × (is_hop_limit outcome ≡ false) × (stated_hops outcome ≤ hops)

  Fair-next_round :
      (hops handled : ℕ) (queue transcript : List AgentMessage) (handoffs : Handoffs) (w : W)
      → count w ≡ handled + 1
      → Fair hops handled (next_round rt task hops queue transcript handoffs) w
  unfolding next_round ended
  Fair-next_round hops handled queue transcript (appended ms) w c = c
  Fair-next_round hops handled queue transcript (blocked_at m) w c =
      (omega (arith, c), refl, omega arith)

  Fair-if :
      (hops handled : ℕ) (b : Bool) (x y : Round) (w : W)
      → Fair hops handled x w
      → Fair hops handled y w
      → Fair hops handled (if b then x else y) w
  Fair-if hops handled true x y w fx fy = fx
  Fair-if hops handled false x y w fx fy = fy

  Fair-after_turn :
      (hops handled : ℕ) (queue transcript : List AgentMessage) (t : Turn) (w : W)
      → count w ≡ handled + 1
      → Fair hops handled (after_turn rt task hops queue transcript t) w
  unfolding after_turn ended
  Fair-after_turn hops handled queue transcript raised w c = (omega (arith, c), refl, omega arith)
  Fair-after_turn hops handled queue transcript (turn t) w c =
      let produced = sorted_messages t.produced_messages in
      Fair-if hops handled t.completed
        (finish (ended rt task true (or_completed t.outcome) hops (transcript ++ produced)))
        (next_round rt task hops queue transcript
          (hand_off rt.policy_gateway rt.settings.fail_on_blocked_handoff produced))
        w (omega (arith, c), refl, omega arith)
        (Fair-next_round hops handled queue transcript
          (hand_off rt.policy_gateway rt.settings.fail_on_blocked_handoff produced) w c)

  module _ (counts : Counts) where
    Fair-deliver :
        (name : String) (handle : AgentMessage → W → Turn × W)
        → rt.handle name ≡ some handle
        → (hops : ℕ) (queue transcript : List AgentMessage) (current : AgentMessage)
          (cleared : Option AgentMessage) (w : W)
        → let (round, w') = deliver rt task handle hops queue transcript current cleared w in
          Fair hops (count w) round w'
    unfolding deliver ended
    Fair-deliver name handle e hops queue transcript current none w =
        (omega arith, refl, omega arith)
    Fair-deliver name handle e hops queue transcript current (some m) w =
        let (t, w') = handle m w in
        Fair-after_turn hops (count w) queue (transcript ++ m ∷ []) t w' (counts name handle e m w)

    Fair-dispatch :
        (name : String) (found : Option (AgentMessage → W → Turn × W))
        → rt.handle name ≡ found
        → (hops : ℕ) (queue transcript : List AgentMessage) (current : AgentMessage) (w : W)
        → let (round, w') = dispatch rt task found hops queue transcript current w in
          Fair hops (count w) round w'
    unfolding dispatch
    Fair-dispatch name none e hops queue transcript current w = (omega arith, refl, omega arith)
    Fair-dispatch name (some handle) e hops queue transcript current w =
        Fair-deliver name handle e hops queue transcript current (inbound rt.policy_gateway current)
          w

    -- What holds when the loop ends, with this many hops left and made, and messages handled before.
    abbrev Bounded : ℕ → ℕ → ℕ → Outcome × W → Type 0
    Bounded left hops handled (outcome, w) =
        (count w ≤ handled + left)
        × (is_hop_limit outcome ≡ true → count w ≡ handled + left)
        × (stated_hops outcome ≤ hops + left)

    -- What the loop does with a round; `rest` is the statement on the rounds that follow.
    Bounded-round :
        (left hops handled : ℕ) (round : Round) (w : W)
        → ((queue transcript : List AgentMessage) (v : W)
            → Bounded left (suc hops) (count v) (loop rt task left (suc hops) queue transcript v))
        → Fair (suc hops) handled round w
        → Bounded (suc left) hops handled (elim round [
          | finish outcome ↦ (outcome, w)
          | again queue transcript ↦ loop rt task left (suc hops) queue transcript w
        ])
    Bounded-round left hops handled (finish outcome) w rest f =
        let (most, no_limit, stated) = f in
        (omega (arith, most), λ h. ground (arith, no_limit, h), omega (arith, stated))
    Bounded-round left hops handled (again queue transcript) w rest f =
        let (most, limit, stated) = rest queue transcript w in
        (omega (arith, f, most), λ h. omega (arith, f, limit h), omega (arith, stated))

    Bounded-loop :
        (left hops : ℕ) (queue transcript : List AgentMessage) (w : W)
        → Bounded left hops (count w) (loop rt task left hops queue transcript w)
    unfolding loop ended
    Bounded-loop left hops [] transcript w = (omega arith, λ h. ground arith, omega arith)
    Bounded-loop zero hops (current ∷ queue) transcript w =
        (omega arith, λ h. omega arith, omega arith)
    Bounded-loop (suc left) hops (current ∷ queue) transcript w =
        let (round, w') =
          dispatch rt task (rt.handle current.to_agent) (suc hops) queue transcript current w in
        Bounded-round left hops (count w) round w' (Bounded-loop left (suc hops)) (
          Fair-dispatch current.to_agent (rt.handle current.to_agent) refl (suc hops) queue
            transcript current w)

-- In a world that counts the messages that agents handle: a run always ends with at most `max_hops`
-- of them; with exactly `max_hops` if it ends in `HopLimitExceededError`; and the hop count of a
-- result is at most `max_hops`.
pub run_bounded :
    {W : Type 0} (rt : Runtime W) (task : CollaborationTask) (count : W → ℕ)
    → Counts rt task count
    → (entry_agent input_text : String) (trace_id : Option String) (now : ℕ) (w : W)
    → let (outcome, w') = run rt task entry_agent input_text trace_id now w in
      (count w' ≤ count w + rt.settings.max_hops)
      × (is_hop_limit outcome ≡ true → count w' ≡ count w + rt.settings.max_hops)
      × (stated_hops outcome ≤ rt.settings.max_hops)
unfolding run
run_bounded rt task count counts entry_agent input_text trace_id now w =
    let (most, limit, stated) =
      Bounded-loop rt task count counts rt.settings.max_hops 0
        (initial rt task entry_agent input_text trace_id now ∷ []) [] w in
    (most, limit, omega (arith, stated))
