-- ===== src/Node/Round.antt =====
-- The loop of `NodeSupervisor.run` (src/specialist/node-supervisor.ts): the fields of a node, what
-- a round reads, and the transition of its status. What the store, the controllers and the clock
-- answer stays the same within a round. A throw keeps the fields as they were when it came.
pub mod Poll
pub mod Coordinator
pub mod Loop
pub mod Invariant
pub mod Laws
pub mod Ends
pub mod Completion
use unit_ai_specialists.Common.{
  ℕ, Bool, true, false, not, Option, none, some, List, [], ◌∷◌, ◌++◌, String, str_eq, truthy,
  if◌then◌else◌,
}
use unit_ai_specialists.Common.Dict.{Dict}
use unit_ai_specialists.Node.States.{NodeState, can_transition}
use unit_ai_specialists.Node.Members.{NodeMemberEntry, ContextHealth}
use unit_ai_specialists.Node.Actions.{Dispatcher}

pub data Strategy : Type 0 where
  pr manual : Strategy

-- Why a status changes; a text is what an error says.
pub data Cause : Type 0 where
  node_supervisor_run_started members_and_coordinator_spawned member_error_or_critical_context
        all_members_healthy coordinator_stopped coordinator_done_manual_completion coordinator_done
        coordinator_output_observed coordinator_resumed_waiting_for_actions all_members_stopped
        all_members_terminal :
      Cause
  coordinator_restart_exhausted coordinator_restart_unavailable coordinator_restarted :
      String → Cause
  coordinator_restart_failed raised : String → Cause
  invalid_transition : NodeState → NodeState → Cause

pub data NodeEvent : Type 0 where
  node_state_changed : NodeState → NodeState → Cause → NodeEvent
  member_job_rebound : String → Option String → Option String → ℕ → NodeEvent
  member_disabled member_failed member_recovered : String → ℕ → NodeEvent
  member_state_changed : String → String → String → ℕ → NodeEvent
  member_output_received coordinator_output_received : String → NodeEvent
  coordinator_resume_skipped coordinator_resumed : ℕ → NodeEvent
  coordinator_resume_state : Bool → NodeEvent
  coordinator_restarted_event : String → Option String → String → NodeEvent
  watchdog_no_progress : ℕ → NodeEvent

-- `actions` holds the status, the members and the dispatch; `output_hash` is the variable of `run`.
-- The events stand newest first.
pub record Node : Type 0 where
  pub actions : Dispatcher
  pub coordinator_job_id : Option String
  pub has_coordinator_controller : Bool
  pub coordinator_restart_count : ℕ
  pub resume_pending : Bool
  pub coordinator_resumes_in_flight : ℕ
  pub degraded_resume_count : ℕ
  pub last_coordinator_output_at_ms : ℕ
  pub last_member_transition_at_ms : ℕ
  pub last_activity_at_ms : ℕ
  pub output_hash : Option String
  pub events : List NodeEvent

pub record MemberRow : Type 0 where
  pub member_id : String
  pub job_id : Option String
  pub generation : Option ℕ

-- An event of the coordinator's timeline: a call of `sp node wait-phase`, which starts or ends.
pub data WaitPhase : Type 0 where
  phase_start phase_end : Option String → WaitPhase

-- What a round reads and what the calls of a round answer. A text of an answer is what was thrown.
pub record World : Type 0 where
  pub now : ℕ
  pub rows : List MemberRow
  pub read_status : String → Option String
  pub member_result : String → String → Option String
  pub coordinator_result : String → Option String
  pub context_pct : String → Option ℕ
  pub wait_phases : String → List WaitPhase
  pub digest : Option ℕ → String → String
  pub resume_throws : Option String
  pub stop_throws : Option String
  pub start_throws : Option String
  pub started_job : String

pub record Options : Type 0 where
  pub strategy : Strategy
  pub has_runner : Bool

-- How a piece of the loop ends: it goes on, breaks out of the loop, or throws.
pub data Flow : Type 0 where
  onward finished : Node → Flow
  thrown : Cause → Node → Flow

abbrev pub status_of : Node → NodeState
status_of n = n.actions.status

abbrev pub members_of : Node → Dict NodeMemberEntry
members_of n = n.actions.members

abbrev pub and_then : Flow → (Node → Flow) → Flow
and_then (onward n) f = f n
and_then (finished n) f = finished n
and_then (thrown c n) f = thrown c n

abbrev pub break_after : Flow → Flow
break_after (onward n) = finished n
break_after (finished n) = finished n
break_after (thrown c n) = thrown c n

unfoldable pub emit : NodeEvent → Node → Node
emit ev n = record n { events = ev ∷ n.events }

unfoldable pub set_status : NodeState → Node → Node
set_status to n = record n { actions = record n.actions { status = to } }

unfoldable pub set_members : Dict NodeMemberEntry → Node → Node
set_members members n = record n { actions = record n.actions { members = members } }

unfoldable pub transition : NodeState → Cause → Node → Flow
transition to cause n =
    if can_transition (status_of n) to
    then onward (emit (node_state_changed (status_of n) to cause) (set_status to n))
    else thrown (invalid_transition (status_of n) to) n

-- `output ? sha256(output) : null`.
abbrev pub hash_output : World → Option ℕ → Option String → Option String
hash_output w salt none = none
hash_output w salt (some output) =
    if truthy (some output) then some (w.digest salt output) else none

abbrev pub same_hash : Option String → Option String → Bool
same_hash none none = true
same_hash (some a) (some b) = str_eq a b
same_hash _ _ = false
