-- ===== src/Node/Round/Coordinator.antt =====
-- The part of a round that follows the coordinator: its restart, its resumption, the ends of a node
-- and the watchdog.
pub mod Resume
pub mod Close
use unit_ai_specialists.Common.{
  ℕ, suc, ◌-◌, ltb, leb, Bool, true, false, not, ◌&&◌, ◌||◌, Option, none, some, List, [], ◌∷◌,
  String, str_eq, is_text, truthy, length, all, filter, if◌then◌else◌,
}
use unit_ai_specialists.Common.Dict.{values}
use unit_ai_specialists.Common.Text.{codes, trim}
use unit_ai_specialists.Node.States.{NodeState, same_state, is_terminal_node_status}
use unit_ai_specialists.Node.Members.{NodeMemberEntry}
use unit_ai_specialists.Node.Round.{
  Node, World, Options, Strategy, pr, manual, WaitPhase, phase_start, phase_end, Flow, onward,
  finished, thrown, Cause, coordinator_stopped, coordinator_done_manual_completion,
  coordinator_done, coordinator_output_observed, coordinator_resumed_waiting_for_actions,
  all_members_stopped, all_members_terminal, coordinator_restart_exhausted,
  coordinator_restart_unavailable, coordinator_restarted, coordinator_restart_failed, raised,
  coordinator_output_received, coordinator_resume_skipped, coordinator_resumed,
  coordinator_resume_state, coordinator_restarted_event, watchdog_no_progress, status_of,
  members_of, and_then, break_after, emit, transition, hash_output, same_hash,
}

abbrev pub is_terminal_job : String → Bool
is_terminal_job s = str_eq s "done" || str_eq s "error" || str_eq s "stopped"

-- `this.coordinatorJobId ? readStatus(this.coordinatorJobId)?.status : null`.
abbrev pub coordinator_status : World → Option String → Option String
coordinator_status w none = none
coordinator_status w (some job) = if truthy (some job) then w.read_status job else none

abbrev pub coordinator_result : World → Bool → Option String → Option String
coordinator_result w has_controller none = none
coordinator_result w has_controller (some job) =
    if truthy (some job) && has_controller then w.coordinator_result job else none

abbrev pub must_stop : Option String → Bool
must_stop none = false
must_stop (some s) = truthy (some s) && not (is_terminal_job s)

-- What stopping the old coordinator threw, if it had to be stopped.
abbrev pub stop_failure : World → Node → Option String
stop_failure w n =
    if n.has_coordinator_controller && must_stop (coordinator_status w n.coordinator_job_id)
    then w.stop_throws
    else none

-- `catch`: the failed restart fails the node.
unfoldable pub fail_restart : Cause → Node → Flow
fail_restart cause n = break_after (transition NodeState.failed cause n)

abbrev pub caught : Flow → Flow
caught (onward n) = onward n
caught (finished n) = finished n
caught (thrown c n) =
    fail_restart (coordinator_restart_failed "Invalid NodeSupervisor transition") n

abbrev pub with_coordinator : World → String → Node → Node
with_coordinator w reason n =
    emit (coordinator_restarted_event reason n.coordinator_job_id w.started_job) (record n {
      coordinator_restart_count = suc n.coordinator_restart_count;
      coordinator_job_id = some w.started_job;
      has_coordinator_controller = true;
      last_coordinator_output_at_ms = w.now;
    })

abbrev pub run_again : String → Node → Flow
run_again reason n =
    if same_state (status_of n) NodeState.error
      || same_state (status_of n) NodeState.failed
      || same_state (status_of n) NodeState.running
      || same_state (status_of n) NodeState.waiting
    then onward n
    else caught (transition NodeState.running (coordinator_restarted reason) n)

unfoldable pub start_coordinator : World → String → Option String → Node → Flow
start_coordinator w reason (some message) n =
    fail_restart (coordinator_restart_failed message)
      (record n { coordinator_restart_count = suc n.coordinator_restart_count })
start_coordinator w reason none n = run_again reason (with_coordinator w reason n)

unfoldable pub stop_coordinator : World → String → Option String → Node → Flow
unfolding start_coordinator
stop_coordinator w reason (some message) n = fail_restart (coordinator_restart_failed message) n
stop_coordinator w reason none n = start_coordinator w reason w.start_throws n

-- `restartCoordinator`, with the `continue` or the `break` that the loop does on its result.
unfoldable pub restart_coordinator : Options → World → String → Node → Flow
unfolding stop_coordinator
restart_coordinator o w reason n =
    if leb 1 n.coordinator_restart_count
    then fail_restart (coordinator_restart_exhausted reason) n
    else if not o.has_runner
    then fail_restart (coordinator_restart_unavailable reason) n
    else stop_coordinator w reason (stop_failure w n) n
