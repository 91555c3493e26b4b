-- ===== src/Node/Round/Loop.antt =====
-- A round of `NodeSupervisor.run`, the loop over the rounds, and what follows a throw.
use unit_ai_specialists.Common.{ℕ, ◌-◌, ltb, ◌||◌, List, [], ◌∷◌, length, if◌then◌else◌}
use unit_ai_specialists.Node.States.{NodeState, same_state, is_terminal_node_status}
use unit_ai_specialists.Node.Round.{
  Node, World, Options, Flow, onward, finished, thrown, Cause, status_of, and_then, transition,
}
use unit_ai_specialists.Node.Round.Poll.{poll_member_statuses, apply_changes}
use unit_ai_specialists.Node.Round.Coordinator.Close.{follow_coordinator}

unfoldable pub round : Options → World → Node → Flow
round o w n =
    let p = poll_member_statuses w n in
    and_then (apply_changes w p.changes p.node) (follow_coordinator o w (length p.changes))

-- How `run` ends: with a result, with an error that its `catch` could not record, or not yet.
pub data End : Type 0 where
  returned : Node → End
  rejected : Cause → Node → End
  running_on : Node → End

unfoldable pub rethrown : Flow → End
rethrown (onward n) = returned n
rethrown (finished n) = returned n
rethrown (thrown c n) = rejected c n

-- `catch (error)`: an error at a terminal status is only reported.
unfoldable pub record_error : Cause → Node → End
unfolding rethrown
record_error c n =
    if is_terminal_node_status (status_of n)
    then returned n
    else rethrown (transition NodeState.error c n)

-- One pass of the loop's test and body; each world is what one round sees.
unfoldable pub loop : Options → List World → Node → End
unfolding record_error
loop o [] n = if is_terminal_node_status (status_of n) then returned n else running_on n
loop o (w ∷ ws) n =
    if is_terminal_node_status (status_of n) then returned n else elim (round o w n) [
      | onward n' ↦ loop o ws n'
      | finished n' ↦ returned n'
      | thrown c n' ↦ record_error c n'
    ]

-- `getNextPollIntervalMs`.
unfoldable pub next_poll_interval_ms : ℕ → ℕ → Node → ℕ
next_poll_interval_ms now updates n =
    let active = ltb 0 updates || ltb 0 (length n.actions.dispatch_queue) in
    let idle = if active then 0 else now - n.last_activity_at_ms in
    if same_state (status_of n) NodeState.degraded
    then 2500
    else if ltb 30000 idle
    then 15000
    else if ltb 10000 idle
    then 10000
    else 5000
