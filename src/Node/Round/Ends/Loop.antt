-- ===== src/Node/Round/Ends/Loop.antt =====
-- How a run of the loop ends.
use unit_ai_specialists.Common.{
  ℕ, ◌-◌, ltb, Bool, true, false, not, ◌&&◌, ◌||◌, ◌≡◌, refl, Option, none, some, List, [], ◌∷◌,
  str_eq, is_text, length, all, if◌then◌else◌, if_both, arith,
}
use unit_ai_specialists.Common.Dict.{get, values}
use unit_ai_specialists.Node.States.{NodeState, same_state, can_transition, is_terminal_node_status}
use unit_ai_specialists.Node.Members.{NodeMemberEntry}
use unit_ai_specialists.Node.Round.{
  invalid_transition, node_state_changed, thrown, set_status, Node, World, Options, onward,
  finished, thrown, Cause, node_state_changed, invalid_transition, all_members_stopped,
  all_members_terminal, coordinator_stopped, watchdog_no_progress, member_error_or_critical_context,
  all_members_healthy, member_recovered, status_of, members_of, and_then, break_after, emit,
  set_status, transition,
}
use unit_ai_specialists.Node.Round.Poll.{
  MemberStateChange, apply_changes, apply_member, judge_change, note_change, clear_degraded,
  recompute_node_health, poll_member_statuses,
}
use unit_ai_specialists.Node.Round.Coordinator.{
  restart_coordinator, coordinator_status, coordinator_result,
}
use unit_ai_specialists.Node.Round.Coordinator.Resume.{
  finish_done, observe_output, resume_coordinator,
}
use unit_ai_specialists.Node.Round.Coordinator.Close.{
  watch_progress, watchdog_fires, close_round, follow_coordinator, is_terminal_member,
  last_progress_at_ms,
}
use unit_ai_specialists.Node.Round.Loop.{
  End, returned, rejected, running_on, loop, round, record_error, rethrown,
}
use unit_ai_specialists.Node.Round.Invariant.{node_of}
use unit_ai_specialists.Node.Round.Invariant.Loop.{round_inv}
use unit_ai_specialists.Node.Round.Laws.{is_started, started_Keeps, error_allowed}
use unit_ai_specialists.Node.Round.Ends.{
  is_resting, Breaks, Stays, transition-Stays, break-Breaks, and_then-Breaks, and_then-Stays,
  restart_coordinator-Breaks, finish_done-Breaks, observe_output-Stays, resume_coordinator-Stays,
}

watch_progress-Breaks : (o : Options) (w : World) (n : Node) → Breaks (watch_progress o w n)
unfolding watch_progress
watch_progress-Breaks o w n =
    let stalled = emit (watchdog_no_progress (w.now - last_progress_at_ms n)) n in
    if_both Breaks (watchdog_fires w n) {x = restart_coordinator o w "watchdog_no_progress" stalled}
      {y = onward n} (λ _. restart_coordinator-Breaks o w "watchdog_no_progress" stalled) (λ _. tt)

close_round-Breaks : (o : Options) (w : World) (n : Node) → Breaks (close_round o w n)
unfolding close_round is_terminal_node_status
close_round-Breaks o w n =
    let members = values (members_of n) in
    let several = ltb 0 (length members) in
    let stop = transition NodeState.stopped all_members_stopped n in
    let end = transition NodeState.done all_members_terminal n in
    if_both Breaks (several && all (λ m. str_eq m.status "stopped") members) {x = break_after stop}
      {y = if several && all is_terminal_member members
        then break_after end
        else watch_progress o w n}
      (λ _. break-Breaks NodeState.stopped all_members_stopped n refl)
      (λ _.
        if_both Breaks (several && all is_terminal_member members) {x = break_after end}
          {y = watch_progress o w n} (λ _. break-Breaks NodeState.done all_members_terminal n refl)
          (λ _. watch_progress-Breaks o w n))

follow_coordinator-Breaks :
    (o : Options) (w : World) (updates : ℕ) (n : Node) → Breaks (follow_coordinator o w updates n)
unfolding follow_coordinator is_terminal_node_status
follow_coordinator-Breaks o w updates n =
    let status = coordinator_status w n.coordinator_job_id in
    let output = coordinator_result w n.has_coordinator_controller n.coordinator_job_id in
    let stop = transition NodeState.stopped coordinator_stopped n in
    let rest =
      and_then (observe_output w output n)
        (λ n'. and_then (resume_coordinator w status updates n') (close_round o w)) in
    let ended = if is_text status "done" then finish_done o w output n else rest in
    if_both Breaks (is_text status "error") {x = restart_coordinator o w "coordinator_crash" n}
      {y = if is_text status "stopped" then break_after stop else ended}
      (λ _. restart_coordinator-Breaks o w "coordinator_crash" n)
      (λ _.
        if_both Breaks (is_text status "stopped") {x = break_after stop} {y = ended}
          (λ _. break-Breaks NodeState.stopped coordinator_stopped n refl)
          (λ _.
            if_both Breaks (is_text status "done") {x = finish_done o w output n} {y = rest}
              (λ _. finish_done-Breaks o w output n)
              (λ _.
                and_then-Breaks (observe_output w output n) _ (observe_output-Stays w output n)
                  λ n'.
                    and_then-Breaks (resume_coordinator w status updates n') (close_round o w)
                      (resume_coordinator-Stays w status updates n') (close_round-Breaks o w))))

judge_change-Stays :
    (w : World) (bad : Bool) (member : NodeMemberEntry) (n : Node)
    → Stays (judge_change w bad member n)
unfolding judge_change
judge_change-Stays w bad member n =
    let worse = transition NodeState.degraded member_error_or_critical_context n in
    let told = emit (member_recovered member.member_id member.generation) n in
    let better = transition NodeState.running all_members_healthy told in
    let active =
      same_state (status_of n) NodeState.running || same_state (status_of n) NodeState.waiting in
    let healed =
      same_state (status_of n) NodeState.degraded
      && same_state (recompute_node_health w n) NodeState.running in
    if_both Stays bad {x = if active then and_then worse clear_degraded else onward n}
      {y = if healed then and_then better clear_degraded else onward n}
      (λ _.
        if_both Stays active {x = and_then worse clear_degraded} {y = onward n}
          (λ _.
            and_then-Stays worse clear_degraded
              (transition-Stays NodeState.degraded member_error_or_critical_context n) (λ _. tt))
          (λ _. tt))
      (λ _.
        if_both Stays healed {x = and_then better clear_degraded} {y = onward n}
          (λ _.
            and_then-Stays better clear_degraded
              (transition-Stays NodeState.running all_members_healthy told) (λ _. tt))
          (λ _. tt))

apply_member-Stays :
    (w : World) (change : MemberStateChange) (member : Option NodeMemberEntry) (n : Node)
    → Stays (apply_member w change member n)
unfolding apply_member
apply_member-Stays w change none n = tt
apply_member-Stays w change (some member) n =
    judge_change-Stays w _ member (note_change w.now change member n)

apply_changes-Stays :
    (w : World) (changes : List MemberStateChange) (n : Node) → Stays (apply_changes w changes n)
unfolding apply_changes
apply_changes-Stays w [] n = tt
apply_changes-Stays w (change ∷ changes) n =
    let member = get change.member_id (members_of n) in
    and_then-Stays (apply_member w change member n) (apply_changes w changes)
      (apply_member-Stays w change member n) (apply_changes-Stays w changes)

round-Breaks : (o : Options) (w : World) (n : Node) → Breaks (round o w n)
unfolding round
round-Breaks o w n =
    let p = poll_member_statuses w n in
    and_then-Breaks (apply_changes w p.changes p.node) (follow_coordinator o w (length p.changes))
      (apply_changes-Stays w p.changes p.node) (follow_coordinator-Breaks o w (length p.changes))

-- A run that is over rests, and its error was recorded.
abbrev pub is_settled : End → Bool
is_settled (returned n) = is_resting (status_of n)
is_settled (rejected c n) = false
is_settled (running_on n) = not (is_terminal_node_status (status_of n))

recorded-settled :
    (c : Cause) (n : Node) → is_started (status_of n) ≡ true → is_settled (record_error c n) ≡ true
unfolding record_error rethrown transition emit set_status is_terminal_node_status
recorded-settled c n h =
    let s = status_of n in
    if_both (λ (e : End). is_settled e ≡ true) (is_terminal_node_status s) {x = returned n}
      {y = rethrown (transition NodeState.error c n)} (λ t. ground (arith, t))
      (λ t.
        if_both (λ f. is_settled (rethrown f) ≡ true) (can_transition s NodeState.error)
          {x = onward
            (emit (node_state_changed s NodeState.error c) (set_status NodeState.error n))}
          {y = thrown (invalid_transition s NodeState.error) n} (λ _. refl)
          (λ cannot. absurd (ground (arith, error_allowed s h t, cannot))))

-- A run of the loop of a node that has left `created` never rejects: when it is over the node is at
-- a terminal status or at `waiting`, and while it goes on the node is at neither terminal status.
pub loop_settled :
    (o : Options) (ws : List World) (n : Node)
    → is_started (status_of n) ≡ true
    → is_settled (loop o ws n) ≡ true
unfolding loop
loop_settled o [] n h =
    if_both (λ (e : End). is_settled e ≡ true) (is_terminal_node_status (status_of n))
      {x = returned n} {y = running_on n} (λ t. ground (arith, t)) (λ t. ground (arith, t))
loop_settled o (w ∷ ws) n h =
    if_both (λ (e : End). is_settled e ≡ true) (is_terminal_node_status (status_of n))
      {x = returned n}
      {y = elim (round o w n) [
        | onward n' ↦ loop o ws n'
        | finished n' ↦ returned n'
        | thrown c n' ↦ record_error c n'
      ]}
      (λ t. ground (arith, t))
      (λ _.
        (elim (round o w n)
            as (λ f.
              is_started (status_of (node_of f)) ≡ true
              → Breaks f
              → is_settled (elim f [
                | onward n' ↦ loop o ws n'
                | finished n' ↦ returned n'
                | thrown c n' ↦ record_error c n'
              ])
                ≡ true) [
                  | onward n' ↦ λ g _. loop_settled o ws n' g
                  | finished n' ↦ λ _ b. b
                  | thrown c n' ↦ λ g _. recorded-settled c n' g
                ])
          (round_inv (λ s _ _. is_started s ≡ true) started_Keeps o w n h) (round-Breaks o w n))
