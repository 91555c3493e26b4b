-- ===== src/Node/Round/Invariant/Loop.antt =====
-- A round and the loop keep what transitions and restarts keep.
use unit_ai_specialists.Common.{ℕ, List, [], ◌∷◌, length, if_both}
use unit_ai_specialists.Node.States.{NodeState, is_terminal_node_status}
use unit_ai_specialists.Node.Round.{
  NodeEvent, Node, World, Options, Flow, onward, finished, thrown, Cause, status_of, transition,
}
use unit_ai_specialists.Node.Round.Poll.{poll_member_statuses, apply_changes}
use unit_ai_specialists.Node.Round.Coordinator.Close.{follow_coordinator}
use unit_ai_specialists.Node.Round.Loop.{
  round, loop, End, returned, rejected, running_on, record_error, rethrown,
}
use unit_ai_specialists.Node.Round.Invariant.{Keeps, Good, Fine, transition-Fine, and_then-Fine}
use unit_ai_specialists.Node.Round.Invariant.Coordinator.{follow_coordinator-Fine}
use unit_ai_specialists.Node.Round.Invariant.Poll.{poll_rows-Good, apply_changes-Fine}

-- The node at the end of a run.
abbrev pub final : End → Node
final (returned n) = n
final (rejected c n) = n
final (running_on n) = n

module _ {ℓ} (P : NodeState → ℕ → List NodeEvent → Type ℓ) (k : Keeps P) where
  pub round_inv : (o : Options) (w : World) (n : Node) → Good P n → Fine P (round o w n)
  unfolding round poll_member_statuses
  round_inv o w n h =
      let p = poll_member_statuses w n in
      and_then-Fine P k (apply_changes w p.changes p.node)
        (follow_coordinator o w (length p.changes))
        (apply_changes-Fine P k w p.changes p.node
          (poll_rows-Good P k w w.rows (record { node = n; changes = [] }) h))
        (follow_coordinator-Fine P k o w (length p.changes))

  abbrev EndsFine : End → Type ℓ
  EndsFine e = Good P (final e)

  rethrown-Fine : (f : Flow) → Fine P f → EndsFine (rethrown f)
  unfolding rethrown
  rethrown-Fine (onward n) h = h
  rethrown-Fine (finished n) h = h
  rethrown-Fine (thrown c n) h = h

  record_error-Fine : (c : Cause) (n : Node) → Good P n → EndsFine (record_error c n)
  unfolding record_error
  record_error-Fine c n h =
      let recorded = rethrown (transition NodeState.error c n) in
      if_both EndsFine (is_terminal_node_status (status_of n)) {x = returned n} {y = recorded}
        (λ _. h)
        (λ _.
          rethrown-Fine (transition NodeState.error c n)
            (transition-Fine P k NodeState.error c n h))

  pub loop_inv :
      (o : Options) (ws : List World) (n : Node) → Good P n → Good P (final (loop o ws n))
  unfolding loop
  loop_inv o [] n h =
      if_both EndsFine (is_terminal_node_status (status_of n)) {x = returned n} {y = running_on n}
        (λ _. h) (λ _. h)
  loop_inv o (w ∷ ws) n h =
      if_both EndsFine (is_terminal_node_status (status_of n)) {x = returned n}
        {y = elim (round o w n) [
          | onward n' ↦ loop o ws n'
          | finished n' ↦ returned n'
          | thrown c n' ↦ record_error c n'
        ]}
        (λ _. h)
        (λ _.
          (elim (round o w n)
              as (λ f.
                Fine P f
                → EndsFine (elim f [
                  | onward n' ↦ loop o ws n'
                  | finished n' ↦ returned n'
                  | thrown c n' ↦ record_error c n'
                ])) [
                  | onward n' ↦ λ g. loop_inv o ws n' g
                  | finished n' ↦ λ g. g
                  | thrown c n' ↦ λ g. record_error-Fine c n' g
                ])
            (round_inv o w n h))
