-- ===== src/Node/Round/Completion.antt =====
-- How a node completes: when its coordinator is done, and when all its members are.
use unit_ai_specialists.Common.{ℕ, ltb, List, List, length, if◌then◌else◌}
use unit_ai_specialists.Common.Dict.{Dict}
use unit_ai_specialists.Node.Round.{
  coordinator_resume_skipped, Node, World, Flow, onward, finished, thrown, emit,
}
use unit_ai_specialists.Node.Round.Poll.{apply_changes, poll_member_statuses}
use unit_ai_specialists.Node.Round.Loop.{End, returned, record_error}

-- A last transition of the loop: where it is not allowed, the node is at `error`.
abbrev after_break : Flow → End
after_break (onward n) = returned n
after_break (finished n) = returned n
after_break (thrown c n) = record_error c n

-- The part of a round that looks at the members, before the coordinator is followed.
abbrev pub members_part : World → Node → Flow
members_part w n = let p = poll_member_statuses w n in apply_changes w p.changes p.node

abbrev changes_seen : World → Node → ℕ
changes_seen w n = length (poll_member_statuses w n).changes

-- The coordinator is running, so it is not resumed; the changes of the members are only noted.
abbrev noted : ℕ → Node → Node
noted updates n = if ltb 0 updates then emit (coordinator_resume_skipped updates) n else n
