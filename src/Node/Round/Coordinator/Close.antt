-- ===== src/Node/Round/Coordinator/Close.antt =====
-- The ends that the members bring, the watchdog, and the part of a round after the members.
use unit_ai_specialists.Common.{
  ℕ, ◌-◌, ltb, leb, Bool, true, false, not, ◌&&◌, ◌||◌, Option, none, some, List, [], ◌∷◌, String,
  str_eq, is_text, truthy, length, all, filter, if◌then◌else◌,
}
use unit_ai_specialists.Common.Dict.{values}
use unit_ai_specialists.Node.States.{NodeState, is_terminal_node_status}
use unit_ai_specialists.Node.Members.{NodeMemberEntry}
use unit_ai_specialists.Node.Round.{
  Node, World, Options, WaitPhase, phase_start, phase_end, Flow, onward, coordinator_stopped,
  all_members_stopped, all_members_terminal, watchdog_no_progress, status_of, members_of, and_then,
  break_after, emit, transition,
}
use unit_ai_specialists.Node.Round.Coordinator.{
  coordinator_result, coordinator_status, is_terminal_job, restart_coordinator,
}
use unit_ai_specialists.Node.Round.Coordinator.Resume.{
  finish_done, observe_output, resume_coordinator,
}

abbrev pub is_terminal_member : NodeMemberEntry → Bool
is_terminal_member m = is_terminal_job m.status

-- `isCoordinatorInBlockingWaitPhase`: the calls that have started and not ended.
abbrev pub without : String → List String → List String
without id ids = filter (λ j. not (str_eq j id)) ids

abbrev pub with_id : String → List String → List String
with_id id ids = id ∷ without id ids

unfoldable pub in_wait_phase : List WaitPhase → List String → Bool → Bool
in_wait_phase [] active uncorrelated = ltb 0 (length active) || uncorrelated
in_wait_phase (phase_start none ∷ events) active uncorrelated = in_wait_phase events active true
in_wait_phase (phase_end none ∷ events) active uncorrelated = in_wait_phase events active false
in_wait_phase (phase_start (some id) ∷ events) active uncorrelated =
    in_wait_phase events (with_id id active) uncorrelated
in_wait_phase (phase_end (some id) ∷ events) active uncorrelated =
    in_wait_phase events (without id active) uncorrelated

unfoldable pub is_in_blocking_wait_phase : World → Option String → Bool
unfolding in_wait_phase
is_in_blocking_wait_phase w none = false
is_in_blocking_wait_phase w (some job) =
    truthy (some job)
    && is_text (w.read_status job) "running"
    && in_wait_phase (w.wait_phases job) [] false

abbrev pub max_of : ℕ → ℕ → ℕ
max_of a b = if ltb a b then b else a

unfoldable pub last_progress_at_ms : Node → ℕ
last_progress_at_ms n =
    max_of n.last_coordinator_output_at_ms
      (max_of n.actions.last_completed_action_at_ms n.last_member_transition_at_ms)

-- `maybeTriggerNoProgressWatchdog`; a clock that went back counts as no stall.
unfoldable pub watchdog_fires : World → Node → Bool
unfolding is_in_blocking_wait_phase last_progress_at_ms
watchdog_fires w n =
    not (is_terminal_node_status (status_of n))
    && not (is_in_blocking_wait_phase w n.coordinator_job_id)
    && leb 120000 (w.now - last_progress_at_ms n)

unfoldable pub watch_progress : Options → World → Node → Flow
unfolding watchdog_fires
watch_progress o w n =
    if watchdog_fires w n
    then restart_coordinator o w "watchdog_no_progress"
        (emit (watchdog_no_progress (w.now - last_progress_at_ms n)) n)
    else onward n

-- The ends that the members bring, and the watchdog after them.
unfoldable pub close_round : Options → World → Node → Flow
unfolding watch_progress
close_round o w n =
    let members = values (members_of n) in
    let any_member = ltb 0 (length members) in
    if any_member && all (λ m. str_eq m.status "stopped") members
    then break_after (transition NodeState.stopped all_members_stopped n)
    else if any_member && all is_terminal_member members
    then break_after (transition NodeState.done all_members_terminal n)
    else watch_progress o w n

unfoldable pub follow_coordinator : Options → World → ℕ → Node → Flow
unfolding finish_done observe_output resume_coordinator
follow_coordinator o w updates n =
    let status = coordinator_status w n.coordinator_job_id in
    let output = coordinator_result w n.has_coordinator_controller n.coordinator_job_id in
    if is_text status "error"
    then restart_coordinator o w "coordinator_crash" n
    else if is_text status "stopped"
    then break_after (transition NodeState.stopped coordinator_stopped n)
    else if is_text status "done"
    then finish_done o w output n
    else and_then (observe_output w output n)
        (λ n'. and_then (resume_coordinator w status updates n') (close_round o w))
