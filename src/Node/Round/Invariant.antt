-- ===== src/Node/Round/Invariant.antt =====
-- What every transition and every restart keeps holds after any round and any loop. The status and
-- the number of restarts change in no other way.
pub mod Coordinator
pub mod Poll
pub mod Loop
use unit_ai_specialists.Common.{
  ℕ, suc, ◌-◌, ◌<◌, ltb, leb, ◌==◌, Bool, true, false, not, ◌&&◌, ◌||◌, ◌≡◌, refl, sym, subst, inl,
  inr, Option, none, some, List, [], ◌∷◌, String, str_eq, is_text, truthy, length, all,
  if◌then◌else◌, if_both, arith,
}
use unit_ai_specialists.Common.Dict.{get, values}
use unit_ai_specialists.Node.States.{NodeState, same_state, can_transition, is_terminal_node_status}
use unit_ai_specialists.Node.Members.{NodeMemberEntry}
use unit_ai_specialists.Node.Actions.{
  Dispatcher, DispatchActionEnvelope, append_action_lifecycle_event, set_pending,
}
use unit_ai_specialists.Node.Actions.Acknowledge.{
  is_written, maybe_acknowledge_member_action, acknowledge_member, acknowledge_pending, complete,
}
use unit_ai_specialists.Node.Round.{
  NodeEvent, coordinator_restarted_event, node_state_changed, invalid_transition,
  coordinator_restart_exhausted, coordinator_restart_unavailable, coordinator_restart_failed,
  coordinator_restarted, coordinator_done, coordinator_done_manual_completion,
  coordinator_output_observed, coordinator_resumed_waiting_for_actions, coordinator_resumed,
  coordinator_resume_state, coordinator_resume_skipped, watchdog_no_progress, all_members_stopped,
  all_members_terminal, coordinator_stopped, member_error_or_critical_context, all_members_healthy,
  member_recovered, member_job_rebound, member_state_changed, member_output_received, member_failed,
  Node, World, Options, Strategy, pr, manual, MemberRow, Flow, onward, finished, thrown, Cause,
  status_of, members_of, and_then, break_after, emit, set_status, set_members, transition,
  hash_output, same_hash,
}
use unit_ai_specialists.Node.Round.Poll.{
  MemberStateChange, Polled, put_member, rebind_job, read_output, acknowledge, move_member,
  see_status, see_job, see_member, see_row, poll_rows, poll_member_statuses, disable, note_change,
  judge_change, clear_degraded, recompute_node_health, apply_member, apply_changes, row_generation,
}
use unit_ai_specialists.Node.Round.Coordinator.{
  fail_restart, caught, start_coordinator, stop_coordinator, restart_coordinator, run_again,
  with_coordinator, coordinator_status, coordinator_result, stop_failure,
}
use unit_ai_specialists.Node.Round.Coordinator.Resume.{
  finish_done, close_done, observe_output, wake, hear_output, text_of, send_resume, settle_resume,
  resume_coordinator, should_resume, is_blank, end_resume, count_degraded,
}
use unit_ai_specialists.Node.Round.Coordinator.Close.{
  watch_progress, watchdog_fires, close_round, follow_coordinator, last_progress_at_ms,
  is_terminal_member,
}
use unit_ai_specialists.Node.Round.Loop.{
  round, loop, End, returned, rejected, running_on, record_error, rethrown,
}

abbrev pub node_of : Flow → Node
node_of (onward n) = n
node_of (finished n) = n
node_of (thrown c n) = n

-- The events of a change of the status and of a restart.
abbrev pub milestones : List NodeEvent → List NodeEvent
milestones [] = []
milestones (node_state_changed a b cause ∷ evs) = node_state_changed a b cause ∷ milestones evs
milestones (coordinator_restarted_event reason old new ∷ evs) =
    coordinator_restarted_event reason old new ∷ milestones evs
milestones (_ ∷ evs) = milestones evs

-- What a predicate on the status, the number of restarts and the events of both must keep: each
-- transition of the table with its event, and the one restart that a node has, which may fail.
pub record Keeps {ℓ} (P : NodeState → ℕ → List NodeEvent → Type ℓ) : Type ℓ where
  pub moves :
      (s t : NodeState) (c : ℕ) (evs : List NodeEvent) (cause : Cause)
      → can_transition s t ≡ true
      → P s c evs
      → P t c (node_state_changed s t cause ∷ evs)
  pub restarts :
      (s : NodeState) (c : ℕ) (evs : List NodeEvent) (reason : String) (old : Option String)
      (new : String)
      → c < 1
      → P s c evs
      → P s (suc c) (coordinator_restarted_event reason old new ∷ evs)
  pub fails : (s : NodeState) (c : ℕ) (evs : List NodeEvent) → c < 1 → P s c evs → P s (suc c) evs

module _ {ℓ} (P : NodeState → ℕ → List NodeEvent → Type ℓ) where
  abbrev pub Good : Node → Type ℓ
  Good n = P (status_of n) n.coordinator_restart_count (milestones n.events)

  abbrev pub Fine : Flow → Type ℓ
  Fine f = Good (node_of f)

module _ {ℓ} (P : NodeState → ℕ → List NodeEvent → Type ℓ) (k : Keeps P) where
  pub transition-Fine :
      (to : NodeState) (cause : Cause) (n : Node) → Good P n → Fine P (transition to cause n)
  unfolding transition emit set_status
  transition-Fine to cause n h =
      if_both (Fine P) (can_transition (status_of n) to)
        {x = onward (emit (node_state_changed (status_of n) to cause) (set_status to n))}
        {y = thrown (invalid_transition (status_of n) to) n}
        (λ can.
          k.moves (status_of n) to n.coordinator_restart_count (milestones n.events) cause can h)
        (λ _. h)

  pub and_then-Fine :
      (f : Flow) (then_do : Node → Flow)
      → Fine P f
      → ((n : Node) → Good P n → Fine P (then_do n))
      → Fine P (and_then f then_do)
  and_then-Fine (onward n) f h g = g n h
  and_then-Fine (finished n) f h g = h
  and_then-Fine (thrown c n) f h g = h

  pub break_after-Fine : (f : Flow) → Fine P f → Fine P (break_after f)
  break_after-Fine (onward n) h = h
  break_after-Fine (finished n) h = h
  break_after-Fine (thrown c n) h = h

  pub fail_restart-Fine : (cause : Cause) (n : Node) → Good P n → Fine P (fail_restart cause n)
  unfolding fail_restart
  fail_restart-Fine cause n h =
      break_after-Fine (transition NodeState.failed cause n)
        (transition-Fine NodeState.failed cause n h)

  pub caught-Fine : (f : Flow) → Fine P f → Fine P (caught f)
  caught-Fine (onward n) h = h
  caught-Fine (finished n) h = h
  caught-Fine (thrown c n) h = fail_restart-Fine _ n h
