-- ===== src/Node/Round/Invariant/Coordinator.antt =====
-- The part of a round that follows the coordinator keeps what transitions and restarts keep.
use unit_ai_specialists.Common.{
  ℕ, suc, ◌-◌, ◌<◌, ltb, leb, true, false, not, ◌&&◌, Option, none, some, List, String, str_eq,
  is_text, truthy, length, all, if◌then◌else◌, if_both, arith,
}
use unit_ai_specialists.Common.Dict.{values}
use unit_ai_specialists.Node.States.{NodeState, same_state}
use unit_ai_specialists.Node.Round.{
  coordinator_restart_exhausted, coordinator_restart_unavailable, coordinator_restart_failed,
  coordinator_restarted, coordinator_done, coordinator_done_manual_completion,
  coordinator_output_observed, coordinator_resumed_waiting_for_actions, coordinator_resumed,
  coordinator_resume_state, coordinator_resume_skipped, watchdog_no_progress, all_members_stopped,
  all_members_terminal, coordinator_stopped, Node, World, Options, Strategy, NodeEvent, pr, manual,
  onward, status_of, members_of, and_then, break_after, emit, transition, hash_output, same_hash,
}
use unit_ai_specialists.Node.Round.Coordinator.{
  fail_restart, caught, start_coordinator, stop_coordinator, restart_coordinator, run_again,
  with_coordinator, coordinator_status, coordinator_result, stop_failure,
}
use unit_ai_specialists.Node.Round.Coordinator.Resume.{
  finish_done, close_done, observe_output, wake, hear_output, text_of, send_resume, settle_resume,
  resume_coordinator, should_resume, is_blank, end_resume, count_degraded,
}
use unit_ai_specialists.Node.Round.Coordinator.Close.{
  watch_progress, watchdog_fires, close_round, follow_coordinator, last_progress_at_ms,
  is_terminal_member,
}
use unit_ai_specialists.Node.Round.Invariant.{
  Keeps, Good, Fine, milestones, transition-Fine, and_then-Fine, break_after-Fine,
  fail_restart-Fine, caught-Fine,
}

module _ {ℓ} (P : NodeState → ℕ → List NodeEvent → Type ℓ) (k : Keeps P) where
  run_again-Fine : (reason : String) (n : Node) → Good P n → Fine P (run_again reason n)
  run_again-Fine reason n h =
      let moved = transition NodeState.running (coordinator_restarted reason) n in
      if_both (Fine P) _ {x = onward n} {y = caught moved} (λ _. h)
        (λ _.
          caught-Fine P k moved
            (transition-Fine P k NodeState.running (coordinator_restarted reason) n h))

  start_coordinator-Fine :
      (w : World) (reason : String) (outcome : Option String) (n : Node)
      → n.coordinator_restart_count < 1
      → Good P n
      → Fine P (start_coordinator w reason outcome n)
  unfolding start_coordinator emit
  start_coordinator-Fine w reason (some message) n few h =
      fail_restart-Fine P k (coordinator_restart_failed message)
        (record n { coordinator_restart_count = suc n.coordinator_restart_count })
        (k.fails (status_of n) n.coordinator_restart_count (milestones n.events) few h)
  start_coordinator-Fine w reason none n few h =
      run_again-Fine reason (with_coordinator w reason n) (
        k.restarts (status_of n) n.coordinator_restart_count (milestones n.events) reason
          n.coordinator_job_id w.started_job few h)

  stop_coordinator-Fine :
      (w : World) (reason : String) (outcome : Option String) (n : Node)
      → n.coordinator_restart_count < 1
      → Good P n
      → Fine P (stop_coordinator w reason outcome n)
  unfolding stop_coordinator
  stop_coordinator-Fine w reason (some message) n few h =
      fail_restart-Fine P k (coordinator_restart_failed message) n h
  stop_coordinator-Fine w reason none n few h =
      start_coordinator-Fine w reason w.start_throws n few h

  restart_coordinator-Fine :
      (o : Options) (w : World) (reason : String) (n : Node)
      → Good P n
      → Fine P (restart_coordinator o w reason n)
  unfolding restart_coordinator
  restart_coordinator-Fine o w reason n h =
      let spent = fail_restart (coordinator_restart_exhausted reason) n in
      let unable = fail_restart (coordinator_restart_unavailable reason) n in
      let stopped = stop_coordinator w reason (stop_failure w n) n in
      if_both (Fine P) (leb 1 n.coordinator_restart_count) {x = spent}
        {y = if not o.has_runner then unable else stopped}
        (λ _. fail_restart-Fine P k (coordinator_restart_exhausted reason) n h)
        (λ few.
          if_both (Fine P) (not o.has_runner) {x = unable} {y = stopped}
            (λ _. fail_restart-Fine P k (coordinator_restart_unavailable reason) n h)
            (λ _. stop_coordinator-Fine w reason (stop_failure w n) n (ground arith) h))

  close_done-Fine : (s : Strategy) (n : Node) → Good P n → Fine P (close_done s n)
  unfolding close_done
  close_done-Fine manual n h =
      transition-Fine P k NodeState.waiting coordinator_done_manual_completion n h
  close_done-Fine pr n h = transition-Fine P k NodeState.done coordinator_done n h

  finish_done-Fine :
      (o : Options) (w : World) (output : Option String) (n : Node)
      → Good P n
      → Fine P (finish_done o w output n)
  unfolding finish_done
  finish_done-Fine o w output n h =
      if_both (Fine P) (is_blank output) {x = restart_coordinator o w "coordinator_empty_output" n}
        {y = break_after (close_done o.strategy n)}
        (λ _. restart_coordinator-Fine o w "coordinator_empty_output" n h)
        (λ _. break_after-Fine P k (close_done o.strategy n) (close_done-Fine o.strategy n h))

  wake-Fine : (n : Node) → Good P n → Fine P (wake n)
  wake-Fine n h =
      if_both (Fine P) (same_state (status_of n) NodeState.waiting)
        {x = transition NodeState.running coordinator_output_observed n} {y = onward n}
        (λ _. transition-Fine P k NodeState.running coordinator_output_observed n h) (λ _. h)

  observe_output-Fine :
      (w : World) (output : Option String) (n : Node)
      → Good P n
      → Fine P (observe_output w output n)
  unfolding observe_output emit
  observe_output-Fine w output n h =
      let hash = hash_output w none output in
      let heard = hear_output hash w.now (text_of output) n in
      if_both (Fine P) (truthy output && not (same_hash hash n.output_hash)) {x = wake heard}
        {y = onward n} (λ _. wake-Fine heard h) (λ _. h)

  settle_resume-Fine : (n : Node) → Good P n → Fine P (settle_resume n)
  settle_resume-Fine n h =
      if_both (Fine P) (same_state (status_of n) NodeState.running)
        {x = transition NodeState.waiting coordinator_resumed_waiting_for_actions n} {y = onward n}
        (λ _. transition-Fine P k NodeState.waiting coordinator_resumed_waiting_for_actions n h)
        (λ _. h)

  send_resume-Fine :
      (outcome : Option String) (updates : ℕ) (n : Node)
      → Good P n
      → Fine P (send_resume outcome updates n)
  unfolding send_resume emit
  send_resume-Fine (some message) updates n h = h
  send_resume-Fine none updates n h =
      settle_resume-Fine
        (emit (coordinator_resumed updates)
          (emit (coordinator_resume_state false) (end_resume (count_degraded n))))
        h

  resume_coordinator-Fine :
      (w : World) (status : Option String) (updates : ℕ) (n : Node)
      → Good P n
      → Fine P (resume_coordinator w status updates n)
  unfolding resume_coordinator emit
  resume_coordinator-Fine w status updates n h =
      let asked = emit (coordinator_resume_state true) (record n {
        resume_pending = true;
        coordinator_resumes_in_flight = suc n.coordinator_resumes_in_flight;
      }) in
      let skipped = onward (emit (coordinator_resume_skipped updates) n) in
      if_both (Fine P) (should_resume status updates n)
        {x = send_resume w.resume_throws updates asked}
        {y = if ltb 0 updates then skipped else onward n}
        (λ _. send_resume-Fine w.resume_throws updates asked h)
        (λ _. if_both (Fine P) (ltb 0 updates) {x = skipped} {y = onward n} (λ _. h) (λ _. h))

  watch_progress-Fine :
      (o : Options) (w : World) (n : Node) → Good P n → Fine P (watch_progress o w n)
  unfolding watch_progress emit
  watch_progress-Fine o w n h =
      let stalled = emit (watchdog_no_progress (w.now - last_progress_at_ms n)) n in
      if_both (Fine P) (watchdog_fires w n)
        {x = restart_coordinator o w "watchdog_no_progress" stalled} {y = onward n}
        (λ _. restart_coordinator-Fine o w "watchdog_no_progress" stalled h) (λ _. h)

  close_round-Fine : (o : Options) (w : World) (n : Node) → Good P n → Fine P (close_round o w n)
  unfolding close_round
  close_round-Fine o w n h =
      let members = values (members_of n) in
      let several = ltb 0 (length members) in
      let stop = transition NodeState.stopped all_members_stopped n in
      let end = transition NodeState.done all_members_terminal n in
      if_both (Fine P) (several && all (λ m. str_eq m.status "stopped") members)
        {x = break_after stop}
        {y = if several && all is_terminal_member members
          then break_after end
          else watch_progress o w n}
        (λ _.
          break_after-Fine P k stop (transition-Fine P k NodeState.stopped all_members_stopped n h))
        (λ _.
          if_both (Fine P) (several && all is_terminal_member members) {x = break_after end}
            {y = watch_progress o w n}
            (λ _.
              break_after-Fine P k end
                (transition-Fine P k NodeState.done all_members_terminal n h))
            (λ _. watch_progress-Fine o w n h))

  go_on-Fine :
      (o : Options) (w : World) (status output : Option String) (updates : ℕ) (n : Node)
      → Good P n
      → Fine P (
          and_then
            (observe_output w output n)
            (λ n'. and_then (resume_coordinator w status updates n') (close_round o w)))
  go_on-Fine o w status output updates n h =
      and_then-Fine P k (observe_output w output n) _ (observe_output-Fine w output n h) λ n' h'.
        and_then-Fine P k (resume_coordinator w status updates n') (close_round o w)
          (resume_coordinator-Fine w status updates n' h') (close_round-Fine o w)

  pub follow_coordinator-Fine :
      (o : Options) (w : World) (updates : ℕ) (n : Node)
      → Good P n
      → Fine P (follow_coordinator o w updates n)
  unfolding follow_coordinator
  follow_coordinator-Fine o w updates n h =
      let status = coordinator_status w n.coordinator_job_id in
      let output = coordinator_result w n.has_coordinator_controller n.coordinator_job_id in
      let stop = transition NodeState.stopped coordinator_stopped n in
      let rest =
        and_then (observe_output w output n)
          (λ n'. and_then (resume_coordinator w status updates n') (close_round o w)) in
      let ended = if is_text status "done" then finish_done o w output n else rest in
      if_both (Fine P) (is_text status "error") {x = restart_coordinator o w "coordinator_crash" n}
        {y = if is_text status "stopped" then break_after stop else ended}
        (λ _. restart_coordinator-Fine o w "coordinator_crash" n h)
        (λ _.
          if_both (Fine P) (is_text status "stopped") {x = break_after stop} {y = ended}
            (λ _.
              break_after-Fine P k stop
                (transition-Fine P k NodeState.stopped coordinator_stopped n h))
            (λ _.
              if_both (Fine P) (is_text status "done") {x = finish_done o w output n} {y = rest}
                (λ _. finish_done-Fine o w output n h)
                (λ _. go_on-Fine o w status output updates n h)))
