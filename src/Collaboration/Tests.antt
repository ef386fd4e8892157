-- ===== src/Collaboration/Tests.antt =====
-- Concrete runs of the message loop of src/electripy/ai/agent_collaboration/services.py.
use text.Mathlib.Text.{◌==◌ as str_eq}
use electripy_ai.Prelude.{
  ℕ, ◌+◌, ◌≤◌, ◌≡◌, refl, sym, ap, subst, String, true, false, none, some, some-injective, List, [],
  ◌∷◌, All, length, arith, if◌then◌else◌,
}
use electripy_ai.Collaboration.{
  CollaborationTask, AgentMessage, AgentTurnResult, PolicyGateway, allow, sanitize, Turn, turn,
  Runtime, passed, inbound, review_handoff, comes_first, insert_message, sorted_messages, prepend,
  hand_off, or_completed, ended, next_round, after_turn, deliver, dispatch, loop, initial, run,
}
use electripy_ai.Collaboration.Hops.{Counts, is_hop_limit, stated_hops, run_bounded}
use electripy_ai.Collaboration.Clearance.{KeptByCleared, run_cleared}

program : Unit {0}
unfolding passed inbound review_handoff comes_first insert_message sorted_messages prepend hand_off
    or_completed ended next_round after_turn deliver dispatch loop initial run
program = tt

abbrev task : CollaborationTask
task = record { task_id = "t"; objective = "o"; metadata = [] }

abbrev draft : AgentMessage
draft = record {
  message_id = "t:1";
  task_id = "t";
  from_agent = "planner";
  to_agent = "writer";
  content = "draft";
  trace_id = none;
  metadata = [];
  created_at = 2;
}

abbrev turn_of : String → AgentTurnResult
turn_of name =
    if str_eq name "writer"
    then record { produced_messages = []; completed = true; outcome = none }
    else record { produced_messages = draft ∷ []; completed = false; outcome = none }

-- The world is the messages handled, the last one first.
abbrev agent : String → AgentMessage → List AgentMessage → Turn × List AgentMessage
agent name m w = (turn (turn_of name), m ∷ w)

abbrev cleaner : PolicyGateway
cleaner = record {
  evaluate_preflight = λ text. sanitize (some "clean");
  evaluate_postflight = λ text. allow;
}

abbrev team : ℕ → Runtime (List AgentMessage)
team hops = record {
  handle = λ name. some (agent name);
  settings = record { max_hops = hops; fail_on_blocked_handoff = true };
  policy_gateway = some cleaner;
}

team-Counts : (hops : ℕ) → Counts (team hops) task length
team-Counts hops name handle e m w =
    subst
      (λ (f : AgentMessage → List AgentMessage → Turn × List AgentMessage).
        length (f m w).1 ≡ length w + 1)
      (some-injective (agent name) handle e) (omega arith)

run_bounded_example :
    let (outcome, w) = run (team 1) task "planner" "go" none 0 [] in
    (length w ≤ 0 + 1)
    × (is_hop_limit outcome ≡ true → length w ≡ 0 + 1)
    × (stated_hops outcome ≤ 1)
unfolding program
run_bounded_example = run_bounded (team 1) task length (team-Counts 1) "planner" "go" none 0 []

limit_run : is_hop_limit (run (team 1) task "planner" "go" none 0 []).0 ≡ true
unfolding program
limit_run = refl

completed_run : stated_hops (run (team 5) task "planner" "go" none 0 []).0 ≡ 2
unfolding program
completed_run = refl

abbrev Clean : List AgentMessage → Type 0
Clean w = All (λ (m : AgentMessage). m.content ≡ "clean") w

team-KeptByCleared : KeptByCleared (team 5) task (initial (team 5) task "planner" "go" none 0) Clean
unfolding inbound passed
team-KeptByCleared handle m w e (raw, origin, cleared) all =
    subst (λ (f : AgentMessage → List AgentMessage → Turn × List AgentMessage). Clean (f m w).1)
      (some-injective (agent m.to_agent) handle e)
      (
        ap (λ (x : AgentMessage). x.content)
            (sym (some-injective (record raw { content = "clean" }) m cleared)),
        all,
      )

run_cleared_example : Clean (run (team 5) task "planner" "go" none 0 []).1
run_cleared_example = run_cleared (team 5) task Clean "planner" "go" none 0 [] team-KeptByCleared tt
