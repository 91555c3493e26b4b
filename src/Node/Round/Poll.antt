-- ===== src/Node/Round/Poll.antt =====
-- `pollMemberStatuses`, `recomputeNodeHealth` and what the loop does with each change.
use unit_ai_specialists.Common.{
  ℕ, ltb, Bool, false, not, ◌&&◌, ◌||◌, Option, none, some, List, [], ◌∷◌, ◌++◌, String, str_eq,
  truthy, if◌then◌else◌,
}
use unit_ai_specialists.Common.Dict.{get, set, values}
use unit_ai_specialists.Node.States.{NodeState, same_state}
use unit_ai_specialists.Node.Members.{NodeMemberEntry, to_context_health, is_critical}
use unit_ai_specialists.Node.Actions.{includes}
use unit_ai_specialists.Node.Actions.Acknowledge.{maybe_acknowledge_member_action}
use unit_ai_specialists.Node.Round.{
  Node, MemberRow, World, Flow, onward, member_error_or_critical_context, all_members_healthy,
  member_job_rebound, member_disabled, member_failed, member_recovered, member_state_changed,
  member_output_received, status_of, members_of, and_then, emit, set_members, transition,
  hash_output, same_hash,
}

pub record MemberStateChange : Type 0 where
  pub member_id : String
  pub prev_status : String
  pub new_status : String
  pub output : Option String

pub record Polled : Type 0 where
  pub node : Node
  pub changes : List MemberStateChange

abbrev pub row_generation : Option ℕ → ℕ
row_generation none = 0
row_generation (some g) = g

unfoldable pub put_member : NodeMemberEntry → Node → Node
unfolding set_members
put_member member n = set_members (set member.member_id member (members_of n)) n

-- `if (row.job_id && row.job_id !== member.jobId)`.
unfoldable pub rebind_job : Option String → NodeMemberEntry → Node → NodeMemberEntry × Node
rebind_job job member n =
    if truthy job && not (same_hash job member.job_id)
    then (
      record member { job_id = job },
      emit (member_job_rebound member.member_id member.job_id job member.generation) n,
    )
    else (member, n)

-- The controller of a member, if it has one, reads the result of its job.
abbrev pub read_output : World → Node → String → String → Option String
read_output w n m job =
    if includes m n.actions.member_controllers then w.member_result m job else none

unfoldable pub acknowledge : ℕ → String → Node → Node
acknowledge now m n = record n { actions = maybe_acknowledge_member_action now m n.actions }

abbrev pub change_of : NodeMemberEntry → String → Option String → MemberStateChange
change_of member status output = record {
  member_id = member.member_id;
  prev_status = member.status;
  new_status = status;
  output = output;
}

unfoldable pub move_member :
    World → NodeMemberEntry → String → Option String → Option String → Polled → Polled
unfolding put_member acknowledge
move_member w member status output hash p = record {
  node =
      acknowledge w.now member.member_id
        (put_member (record member { status = status; last_seen_output_hash = hash }) p.node);
  changes = p.changes ++ change_of member status output ∷ [];
}

unfoldable pub see_status :
    World → NodeMemberEntry → Option String → Option String → Polled → Polled
unfolding move_member
see_status w member output none p = p
see_status w member output (some status) p =
    let hash = hash_output w (some member.generation) output in
    if str_eq member.status status && same_hash member.last_seen_output_hash hash
    then p
    else move_member w member status output hash p

unfoldable pub see_job : World → NodeMemberEntry → Option String → Polled → Polled
unfolding see_status
see_job w member none p = p
see_job w member (some job) p =
    if truthy (some job)
    then see_status w member (read_output w p.node member.member_id job) (w.read_status job) p
    else p

unfoldable pub see_member : World → MemberRow → NodeMemberEntry → Polled → Polled
unfolding rebind_job put_member see_job
see_member w row member p =
    let generation = row_generation row.generation in
    if not member.enabled || ltb generation member.generation
    then p
    else let (bound, n) =
        rebind_job row.job_id (record member { generation = generation }) p.node in
      see_job w bound bound.job_id (record p { node = put_member bound n })

unfoldable pub see_row : World → MemberRow → Option NodeMemberEntry → Polled → Polled
unfolding see_member
see_row w row none p = p
see_row w row (some member) p = see_member w row member p

unfoldable pub poll_rows : World → List MemberRow → Polled → Polled
unfolding see_row
poll_rows w [] p = p
poll_rows w (row ∷ rows) p =
    poll_rows w rows (see_row w row (get row.member_id (members_of p.node)) p)

unfoldable pub poll_member_statuses : World → Node → Polled
unfolding poll_rows
poll_member_statuses w n = poll_rows w w.rows (record { node = n; changes = [] })

-- The health of the context of a member's job; without a job it is unknown.
abbrev pub context_of : World → Option String → Bool
context_of w none = false
context_of w (some job) = truthy (some job) && is_critical (to_context_health (w.context_pct job))

unfoldable pub is_degraded : World → List NodeMemberEntry → Bool
is_degraded w [] = false
is_degraded w (member ∷ members) =
    (member.enabled && (str_eq member.status "error" || context_of w member.job_id))
    || is_degraded w members

unfoldable pub recompute_node_health : World → Node → NodeState
recompute_node_health w n =
    if is_degraded w (values (members_of n)) then NodeState.degraded else NodeState.running

unfoldable pub disable : NodeMemberEntry → Node → Node
unfolding put_member
disable member n =
    emit (member_disabled member.member_id member.generation)
      (put_member (record member { enabled = false }) n)

-- The events of a change, and the time of the last one.
unfoldable pub note_change : ℕ → MemberStateChange → NodeMemberEntry → Node → Node
unfolding disable
note_change now change member n =
    let failed = str_eq change.new_status "error" in
    let n1 = if failed then disable member n else n in
    let n2 =
      emit
        (member_state_changed member.member_id change.prev_status change.new_status
          member.generation)
        n1 in
    let n3 =
      if truthy change.output then emit (member_output_received member.member_id) n2 else n2 in
    let n4 = if failed then emit (member_failed member.member_id member.generation) n3 else n3 in
    record n4 { last_member_transition_at_ms = now }

abbrev pub clear_degraded : Node → Flow
clear_degraded n = onward (record n { degraded_resume_count = 0 })

unfoldable pub judge_change : World → Bool → NodeMemberEntry → Node → Flow
judge_change w bad member n =
    if bad
    then if same_state (status_of n) NodeState.running || same_state (status_of n) NodeState.waiting
      then and_then (transition NodeState.degraded member_error_or_critical_context n)
          clear_degraded
      else onward n
    else if same_state (status_of n) NodeState.degraded
        && same_state (recompute_node_health w n) NodeState.running
    then and_then
        (transition NodeState.running all_members_healthy
          (emit (member_recovered member.member_id member.generation) n))
        clear_degraded
    else onward n

unfoldable pub apply_member : World → MemberStateChange → Option NodeMemberEntry → Node → Flow
unfolding note_change judge_change
apply_member w change none n = onward n
apply_member w change (some member) n =
    judge_change w (str_eq change.new_status "error" || context_of w member.job_id) member
      (note_change w.now change member n)

unfoldable pub apply_changes : World → List MemberStateChange → Node → Flow
unfolding apply_member
apply_changes w [] n = onward n
apply_changes w (change ∷ changes) n =
    and_then (apply_member w change (get change.member_id (members_of n)) n)
      (apply_changes w changes)
