-- ===== src/Node/Round/Ends.antt =====
-- The pieces of a round that break out of the loop and those that never do.
pub mod Loop
use unit_ai_specialists.Common.{
  ℕ, suc, ◌-◌, ltb, leb, ◌==◌, Bool, true, false, not, ◌&&◌, ◌||◌, ◌≡◌, refl, sym, subst, Option,
  none, some, List, [], ◌∷◌, String, str_eq, is_text, truthy, length, all, if◌then◌else◌,
  Bool-cases, if_both, arith,
}
use unit_ai_specialists.Common.Dict.{get, values}
use unit_ai_specialists.Node.States.{NodeState, same_state, can_transition, is_terminal_node_status}
use unit_ai_specialists.Node.Members.{NodeMemberEntry}
use unit_ai_specialists.Node.Round.{
  Node, World, Options, Strategy, pr, manual, Flow, onward, finished, thrown, Cause,
  node_state_changed, invalid_transition, coordinator_restart_exhausted,
  coordinator_restart_unavailable, coordinator_restart_failed, coordinator_restarted,
  coordinator_done, coordinator_done_manual_completion, all_members_stopped, all_members_terminal,
  coordinator_stopped, watchdog_no_progress, coordinator_output_observed, coordinator_resume_state,
  coordinator_resume_skipped, coordinator_resumed_waiting_for_actions,
  member_error_or_critical_context, all_members_healthy, member_recovered, status_of, members_of,
  and_then, break_after, emit, set_status, transition, hash_output, same_hash,
}
use unit_ai_specialists.Node.Round.Poll.{
  MemberStateChange, apply_changes, apply_member, judge_change, note_change, clear_degraded,
  recompute_node_health, poll_member_statuses,
}
use unit_ai_specialists.Node.Round.Coordinator.{
  fail_restart, caught, start_coordinator, stop_coordinator, restart_coordinator, run_again,
  with_coordinator, coordinator_status, coordinator_result, stop_failure,
}
use unit_ai_specialists.Node.Round.Coordinator.Resume.{
  finish_done, close_done, observe_output, wake, hear_output, text_of, send_resume, settle_resume,
  resume_coordinator, should_resume, is_blank,
}
use unit_ai_specialists.Node.Round.Coordinator.Close.{
  watch_progress, watchdog_fires, close_round, follow_coordinator, is_terminal_member,
  last_progress_at_ms,
}
use unit_ai_specialists.Node.Round.Loop.{
  End, returned, rejected, running_on, loop, round, record_error, rethrown,
}
use unit_ai_specialists.Node.Round.Invariant.{node_of}
use unit_ai_specialists.Node.Round.Invariant.Loop.{round_inv}

-- A status at which a node may be left: a terminal one, or `waiting` for its operator.
abbrev pub is_resting : NodeState → Bool
is_resting s = is_terminal_node_status s || same_state s NodeState.waiting

-- A piece breaks out of the loop only with a status to rest at.
abbrev pub Breaks : Flow → Type 0
Breaks (onward n) = Unit {0}
Breaks (finished n) = is_resting (status_of n) ≡ true
Breaks (thrown c n) = Unit {0}

-- A piece that never breaks out of the loop.
abbrev pub Stays : Flow → Type 0
Stays (onward n) = Unit {0}
Stays (finished n) = ⊥
Stays (thrown c n) = Unit {0}

pub transition-Stays : (to : NodeState) (cause : Cause) (n : Node) → Stays (transition to cause n)
unfolding transition
transition-Stays to cause n =
    if_both Stays (can_transition (status_of n) to)
      {x = onward (emit (node_state_changed (status_of n) to cause) (set_status to n))}
      {y = thrown (invalid_transition (status_of n) to) n} (λ _. tt) (λ _. tt)

pub break-Breaks :
    (to : NodeState) (cause : Cause) (n : Node)
    → is_resting to ≡ true
    → Breaks (break_after (transition to cause n))
unfolding transition emit set_status
break-Breaks to cause n h =
    if_both (λ f. Breaks (break_after f)) (can_transition (status_of n) to)
      {x = onward (emit (node_state_changed (status_of n) to cause) (set_status to n))}
      {y = thrown (invalid_transition (status_of n) to) n} (λ _. h) (λ _. tt)

Stays-Breaks : (f : Flow) → Stays f → Breaks f
Stays-Breaks (onward n) h = tt
Stays-Breaks (finished n) h = absurd h
Stays-Breaks (thrown c n) h = tt

pub and_then-Breaks :
    (f : Flow) (k : Node → Flow) → Stays f → ((n : Node) → Breaks (k n)) → Breaks (and_then f k)
and_then-Breaks (onward n) k h g = g n
and_then-Breaks (finished n) k h g = absurd h
and_then-Breaks (thrown c n) k h g = tt

pub and_then-Stays :
    (f : Flow) (k : Node → Flow) → Stays f → ((n : Node) → Stays (k n)) → Stays (and_then f k)
and_then-Stays (onward n) k h g = g n
and_then-Stays (finished n) k h g = absurd h
and_then-Stays (thrown c n) k h g = tt

fail_restart-Breaks : (cause : Cause) (n : Node) → Breaks (fail_restart cause n)
unfolding fail_restart is_terminal_node_status
fail_restart-Breaks cause n = break-Breaks NodeState.failed cause n refl

caught-Breaks : (f : Flow) → Stays f → Breaks (caught f)
caught-Breaks (onward n) h = tt
caught-Breaks (finished n) h = absurd h
caught-Breaks (thrown c n) h = fail_restart-Breaks _ n

run_again-Breaks : (reason : String) (n : Node) → Breaks (run_again reason n)
run_again-Breaks reason n =
    let moved = transition NodeState.running (coordinator_restarted reason) n in
    if_both Breaks _ {x = onward n} {y = caught moved} (λ _. tt)
      (λ _.
        caught-Breaks moved (transition-Stays NodeState.running (coordinator_restarted reason) n))

start_coordinator-Breaks :
    (w : World) (reason : String) (outcome : Option String) (n : Node)
    → Breaks (start_coordinator w reason outcome n)
unfolding start_coordinator
start_coordinator-Breaks w reason (some message) n = fail_restart-Breaks _ _
start_coordinator-Breaks w reason none n = run_again-Breaks reason (with_coordinator w reason n)

stop_coordinator-Breaks :
    (w : World) (reason : String) (outcome : Option String) (n : Node)
    → Breaks (stop_coordinator w reason outcome n)
unfolding stop_coordinator
stop_coordinator-Breaks w reason (some message) n = fail_restart-Breaks _ n
stop_coordinator-Breaks w reason none n = start_coordinator-Breaks w reason w.start_throws n

pub restart_coordinator-Breaks :
    (o : Options) (w : World) (reason : String) (n : Node)
    → Breaks (restart_coordinator o w reason n)
unfolding restart_coordinator
restart_coordinator-Breaks o w reason n =
    let spent = fail_restart (coordinator_restart_exhausted reason) n in
    let unable = fail_restart (coordinator_restart_unavailable reason) n in
    let stopped = stop_coordinator w reason (stop_failure w n) n in
    if_both Breaks (leb 1 n.coordinator_restart_count) {x = spent}
      {y = if not o.has_runner then unable else stopped}
      (λ _. fail_restart-Breaks (coordinator_restart_exhausted reason) n)
      (λ few.
        if_both Breaks (not o.has_runner) {x = unable} {y = stopped}
          (λ _. fail_restart-Breaks (coordinator_restart_unavailable reason) n)
          (λ _. stop_coordinator-Breaks w reason (stop_failure w n) n))

close_done-Breaks : (s : Strategy) (n : Node) → Breaks (break_after (close_done s n))
unfolding close_done is_terminal_node_status same_state
close_done-Breaks manual n =
    break-Breaks NodeState.waiting coordinator_done_manual_completion n refl
close_done-Breaks pr n = break-Breaks NodeState.done coordinator_done n refl

pub finish_done-Breaks :
    (o : Options) (w : World) (output : Option String) (n : Node)
    → Breaks (finish_done o w output n)
unfolding finish_done
finish_done-Breaks o w output n =
    if_both Breaks (is_blank output) {x = restart_coordinator o w "coordinator_empty_output" n}
      {y = break_after (close_done o.strategy n)}
      (λ _. restart_coordinator-Breaks o w "coordinator_empty_output" n)
      (λ _. close_done-Breaks o.strategy n)

wake-Stays : (n : Node) → Stays (wake n)
wake-Stays n =
    if_both Stays (same_state (status_of n) NodeState.waiting)
      {x = transition NodeState.running coordinator_output_observed n} {y = onward n}
      (λ _. transition-Stays NodeState.running coordinator_output_observed n) (λ _. tt)

pub observe_output-Stays :
    (w : World) (output : Option String) (n : Node) → Stays (observe_output w output n)
unfolding observe_output
observe_output-Stays w output n =
    let hash = hash_output w none output in
    let heard = hear_output hash w.now (text_of output) n in
    if_both Stays (truthy output && not (same_hash hash n.output_hash)) {x = wake heard}
      {y = onward n} (λ _. wake-Stays heard) (λ _. tt)

settle_resume-Stays : (n : Node) → Stays (settle_resume n)
settle_resume-Stays n =
    if_both Stays (same_state (status_of n) NodeState.running)
      {x = transition NodeState.waiting coordinator_resumed_waiting_for_actions n} {y = onward n}
      (λ _. transition-Stays NodeState.waiting coordinator_resumed_waiting_for_actions n) (λ _. tt)

send_resume-Stays :
    (outcome : Option String) (updates : ℕ) (n : Node) → Stays (send_resume outcome updates n)
unfolding send_resume
send_resume-Stays (some message) updates n = tt
send_resume-Stays none updates n = settle_resume-Stays _

pub resume_coordinator-Stays :
    (w : World) (status : Option String) (updates : ℕ) (n : Node)
    → Stays (resume_coordinator w status updates n)
unfolding resume_coordinator
resume_coordinator-Stays w status updates n =
    let asked = emit (coordinator_resume_state true) (record n {
      resume_pending = true;
      coordinator_resumes_in_flight = suc n.coordinator_resumes_in_flight;
    }) in
    let skipped = onward (emit (coordinator_resume_skipped updates) n) in
    if_both Stays (should_resume status updates n) {x = send_resume w.resume_throws updates asked}
      {y = if ltb 0 updates then skipped else onward n}
      (λ _. send_resume-Stays w.resume_throws updates asked)
      (λ _. if_both Stays (ltb 0 updates) {x = skipped} {y = onward n} (λ _. tt) (λ _. tt))
