-- ===== src/Collaboration.antt =====
-- The message loop of src/electripy/ai/agent_collaboration/ (services.py, domain.py). Agents may keep
-- state of their own and raise exceptions: they act on a world of the caller's choice. The policy
-- gateway is an interface, the two decisions that the loop asks of it. Metadata hold their values as
-- text; creation times are natural numbers, in the order of their ISO format.
pub mod Hops
pub mod Clearance
mod Tests
use Prim.Native.String
use Prim.Native.String.{◌++◌ as str_append}
use Prim.Native.Nat
use Prim.Native.Nat.{Ordering}
use text.Mathlib.Text.{◌==◌ as str_eq}
use electripy_ai.Prelude.{
  ℕ, zero, suc, String, Bool, true, false, not, Option, none, some, List, [], ◌∷◌, ◌++◌,
  if◌then◌else◌,
}

pub record CollaborationTask : Type 0 where
  pub task_id : String
  pub objective : String
  pub metadata : List (String × String)

pub record AgentMessage : Type 0 where
  pub message_id : String
  pub task_id : String
  pub from_agent : String
  pub to_agent : String
  pub content : String
  pub trace_id : Option String
  pub metadata : List (String × String)
  pub created_at : ℕ

pub record AgentTurnResult : Type 0 where
  pub produced_messages : List AgentMessage
  pub completed : Bool
  pub outcome : Option String

pub record CollaborationRunResult : Type 0 where
  pub task_id : String
  pub success : Bool
  pub terminal_status : String
  pub hop_count : ℕ
  pub transcript : List AgentMessage

pub record CollaborationRuntimeSettings : Type 0 where
  pub max_hops : ℕ
  pub fail_on_blocked_handoff : Bool

-- What the loop reads of a decision of the gateway: `sanitize` carries `sanitized_text`.
pub data PolicyAction : Type 0 where
  allow deny require_approval : PolicyAction
  sanitize : Option String → PolicyAction

pub record PolicyGateway : Type 0 where
  pub evaluate_preflight : String → PolicyAction
  pub evaluate_postflight : String → PolicyAction

-- `raised` is an exception of the agent's own.
pub data Turn : Type 0 where
  turn : AgentTurnResult → Turn
  raised : Turn

-- How a run ends.
pub data Outcome : Type 0 where
  result : CollaborationRunResult → Outcome
  hop_limit_exceeded : Outcome
  unknown_agent : String → Outcome
  agent_raised : Outcome

-- The agent of a name, if one is registered, takes a message.
pub record Runtime (W : Type 0) : Type 0 where
  pub handle : String → Option (AgentMessage → W → Turn × W)
  pub settings : CollaborationRuntimeSettings
  pub policy_gateway : Option PolicyGateway

-- `sorted` by `(msg.created_at.isoformat(), msg.message_id)`: stable, as an insertion from the end.
pub comes_first : AgentMessage → AgentMessage → Bool
comes_first a b = elim (Prim.Native.Nat.compare a.created_at b.created_at) [
  | Ordering.lt ↦ true
  | Ordering.eq ↦ elim (Prim.Native.String.compare a.message_id b.message_id) [
    | Ordering.gt ↦ false
    | _ ↦ true
  ]
  | Ordering.gt ↦ false
]

pub insert_message : AgentMessage → List AgentMessage → List AgentMessage
insert_message m [] = m ∷ []
insert_message m (n ∷ ns) = if comes_first m n then m ∷ n ∷ ns else n ∷ insert_message m ns

pub sorted_messages : List AgentMessage → List AgentMessage
sorted_messages [] = []
sorted_messages (m ∷ ms) = insert_message m (sorted_messages ms)

-- The message as a decision lets it pass, if it does.
pub passed : PolicyAction → AgentMessage → Option AgentMessage
passed allow m = some m
passed deny m = none
passed require_approval m = none
passed (sanitize none) m = some m
passed (sanitize (some text)) m = some (record m { content = text })

pub inbound : Option PolicyGateway → AgentMessage → Option AgentMessage
inbound none m = some m
inbound (some gateway) m = passed (gateway.evaluate_preflight m.content) m

pub review_handoff : Option PolicyGateway → AgentMessage → Option AgentMessage
review_handoff none m = some m
review_handoff (some gateway) m = passed (gateway.evaluate_postflight m.content) m

-- What the loop over the produced messages does: it appends messages to the queue, or returns at a
-- message that is blocked.
pub data Handoffs : Type 0 where
  appended : List AgentMessage → Handoffs
  blocked_at : AgentMessage → Handoffs

pub prepend : AgentMessage → Handoffs → Handoffs
prepend m (appended ms) = appended (m ∷ ms)
prepend m (blocked_at n) = blocked_at n

pub hand_off : Option PolicyGateway → Bool → List AgentMessage → Handoffs
hand_off gateway fail [] = appended []
hand_off gateway fail (m ∷ ms) =
    let rest = hand_off gateway fail ms in
    elim (review_handoff gateway m) [
      | none ↦ if fail then blocked_at m else rest
      | some reviewed ↦ prepend reviewed rest
    ]

pub or_completed : Option String → String
or_completed none = "completed"
or_completed (some outcome) = if str_eq outcome "" then "completed" else outcome

-- How one round of the loop ends: `again` carries the queue and the transcript.
pub data Round : Type 0 where
  finish : Outcome → Round
  again : List AgentMessage → List AgentMessage → Round

module _ {W : Type 0} (rt : Runtime W) (task : CollaborationTask) where
  pub ended : Bool → String → ℕ → List AgentMessage → Outcome
  ended success status hops transcript = result (record {
    task_id = task.task_id;
    success = success;
    terminal_status = status;
    hop_count = hops;
    transcript = transcript;
  })

  pub next_round : ℕ → List AgentMessage → List AgentMessage → Handoffs → Round
  next_round hops queue transcript (appended ms) = again (queue ++ ms) transcript
  next_round hops queue transcript (blocked_at m) =
      finish (ended false "blocked_handoff" hops (transcript ++ m ∷ []))

  pub after_turn : ℕ → List AgentMessage → List AgentMessage → Turn → Round
  after_turn hops queue transcript raised = finish agent_raised
  after_turn hops queue transcript (turn t) =
      let produced = sorted_messages t.produced_messages in
      if t.completed
      then finish (ended true (or_completed t.outcome) hops (transcript ++ produced))
      else next_round hops queue transcript
          (hand_off rt.policy_gateway rt.settings.fail_on_blocked_handoff produced)

  pub deliver :
      (AgentMessage → W → Turn × W)
      → ℕ
      → List AgentMessage
      → List AgentMessage
      → AgentMessage
      → Option AgentMessage
      → W
      → Round × W
  deliver handle hops queue transcript current none w =
      (finish (ended false "blocked_inbound" hops (transcript ++ current ∷ [])), w)
  deliver handle hops queue transcript current (some cleared) w =
      let (t, w') = handle cleared w in (after_turn hops queue (transcript ++ cleared ∷ []) t, w')

  -- `hops` counts the current message.
  pub dispatch :
      Option (AgentMessage → W → Turn × W)
      → ℕ
      → List AgentMessage
      → List AgentMessage
      → AgentMessage
      → W
      → Round × W
  dispatch none hops queue transcript current w = (finish (unknown_agent current.to_agent), w)
  dispatch (some handle) hops queue transcript current w =
      deliver handle hops queue transcript current (inbound rt.policy_gateway current) w

  -- The `while` loop: `left` is what `hops` lacks of `max_hops`.
  pub loop : ℕ → ℕ → List AgentMessage → List AgentMessage → W → Outcome × W
  loop left hops [] transcript w = (ended false "exhausted" hops transcript, w)
  loop zero hops (current ∷ queue) transcript w = (hop_limit_exceeded, w)
  loop (suc left) hops (current ∷ queue) transcript w =
      let (round, w') =
        dispatch (rt.handle current.to_agent) (suc hops) queue transcript current w in
      elim round [
        | finish outcome ↦ (outcome, w')
        | again queue' transcript' ↦ loop left (suc hops) queue' transcript' w'
      ]

  pub initial : String → String → Option String → ℕ → AgentMessage
  initial entry_agent input_text trace_id now = record {
    message_id = str_append task.task_id ":0";
    task_id = task.task_id;
    from_agent = "caller";
    to_agent = entry_agent;
    content = input_text;
    trace_id = trace_id;
    metadata = [];
    created_at = now;
  }

  pub run : String → String → Option String → ℕ → W → Outcome × W
  run entry_agent input_text trace_id now w =
      loop rt.settings.max_hops 0 (initial entry_agent input_text trace_id now ∷ []) [] w
