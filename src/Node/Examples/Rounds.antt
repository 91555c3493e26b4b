-- ===== src/Node/Examples/Rounds.antt =====
-- Runs of a node's loop at concrete worlds (src/specialist/node-supervisor.ts).
use unit_ai_specialists.Common.{
  ◌≤◌, true, false, ◌≡◌, refl, Option, none, some, List, [], ◌∷◌, String, str_eq, if◌then◌else◌,
  arith,
}
use unit_ai_specialists.Node.Round.Coordinator.{coordinator_result}
use unit_ai_specialists.Node.States.{NodeState}
use unit_ai_specialists.Node.Actions.Runs.{fresh}
use unit_ai_specialists.Node.Round.{Node, World, Options, manual, status_of}
use unit_ai_specialists.Node.Round.Invariant.{node_of}
use unit_ai_specialists.Node.Round.Loop.{loop}
use unit_ai_specialists.Node.Round.Invariant.Loop.{final}
use unit_ai_specialists.Node.Round.Laws.{Traced, loop_follows, restarts_in, restarts_bounded}
use unit_ai_specialists.Node.Round.Ends.Loop.{is_settled, loop_settled}
use unit_ai_specialists.Node.Round.Completion.{members_part}
use unit_ai_specialists.Node.Members.{NodeMemberEntry}

abbrev ended_member : String → NodeMemberEntry
ended_member status = record {
  member_id = "alpha";
  job_id = some "j1";
  specialist = "explorer";
  model = none;
  role = none;
  status = status;
  enabled = true;
  last_seen_output_hash = none;
  generation = 1;
  worktree_path = none;
  parent_member_id = none;
  replaced_member_id = none;
  phase_id = none;
}

abbrev at : NodeState → String → Node
at status member_status = record {
  actions = fresh status (("alpha", ended_member member_status) ∷ []) ("alpha" ∷ []) 0;
  coordinator_job_id = some "j0";
  has_coordinator_controller = true;
  coordinator_restart_count = 0;
  resume_pending = false;
  coordinator_resumes_in_flight = 0;
  degraded_resume_count = 0;
  last_coordinator_output_at_ms = 0;
  last_member_transition_at_ms = 0;
  last_activity_at_ms = 0;
  output_hash = none;
  events = [];
}

-- The coordinator's job has this status and this result, and no member has moved.
abbrev seeing : String → Option String → World
seeing status output = record {
  now = 1000;
  rows = [];
  read_status = λ _. some status;
  member_result = λ _ _. none;
  coordinator_result = λ _. output;
  context_pct = λ _. none;
  wait_phases = λ _. [];
  digest = λ _ s. s;
  resume_throws = none;
  stop_throws = none;
  start_throws = none;
  started_job = "j9";
}

abbrev by_hand : Options
by_hand = record { strategy = manual; has_runner = true }

abbrev crash : World
crash = seeing "error" none

abbrev running_node : Node
running_node = at NodeState.running "waiting"

abbrev waiting_node : Node
waiting_node = at NodeState.waiting "waiting"

-- Two crashes: a restart, then the end.
abbrev crashes : List World
crashes = crash ∷ crash ∷ []

loop_follows_example :
    Traced NodeState.running
      (status_of (final (loop by_hand crashes running_node)))
      (final (loop by_hand crashes running_node)).events
unfolding fresh
loop_follows_example = loop_follows by_hand crashes running_node NodeState.running refl

restarts_bounded_example :
    (restarts_in (final (loop by_hand crashes running_node)).events ≤ 1)
    × ((final (loop by_hand crashes running_node)).coordinator_restart_count ≤ 1)
restarts_bounded_example = restarts_bounded by_hand crashes running_node (omega arith) (omega arith)

loop_settled_example : is_settled (loop by_hand crashes running_node) ≡ true
unfolding fresh
loop_settled_example = loop_settled by_hand crashes running_node refl

abbrev done_world : World
done_world = seeing "done" (some "found it")

-- The job of the only member is said to have this status.
abbrev moved : String → Option String → World
moved status output = record (seeing status output) {
  rows = record { member_id = "alpha"; job_id = some "j1"; generation = some 1 } ∷ [];
  read_status = λ job. some (if str_eq job "j1" then "error" else status);
}

-- The only member of a running node ends in an error.
abbrev failed_node : Node
failed_node = node_of (members_part (moved "running" none) running_node)
