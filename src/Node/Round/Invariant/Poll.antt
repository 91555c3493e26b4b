-- ===== src/Node/Round/Invariant/Poll.antt =====
-- Polling the members and applying their changes keeps what transitions keep.
use unit_ai_specialists.Common.{
  ℕ, ltb, Bool, not, ◌&&◌, ◌||◌, ◌≡◌, refl, sym, subst, Option, none, some, List, [], ◌∷◌, String,
  str_eq, truthy, if◌then◌else◌, if_both,
}
use unit_ai_specialists.Common.Dict.{get}
use unit_ai_specialists.Node.States.{NodeState, same_state}
use unit_ai_specialists.Node.Members.{NodeMemberEntry}
use unit_ai_specialists.Node.Actions.{
  Dispatcher, DispatchActionEnvelope, append_action_lifecycle_event, set_pending,
}
use unit_ai_specialists.Node.Actions.Acknowledge.{
  is_written, maybe_acknowledge_member_action, acknowledge_member, acknowledge_pending, complete,
}
use unit_ai_specialists.Node.Round.{
  member_error_or_critical_context, all_members_healthy, member_recovered, member_job_rebound,
  member_state_changed, member_output_received, member_failed, Node, World, MemberRow, Flow, onward,
  status_of, members_of, and_then, emit, set_members, transition, hash_output, same_hash,
}
use unit_ai_specialists.Node.Round.Poll.{
  MemberStateChange, Polled, put_member, rebind_job, read_output, acknowledge, move_member,
  see_status, see_job, see_member, see_row, poll_rows, disable, note_change, judge_change,
  clear_degraded, recompute_node_health, apply_member, apply_changes, row_generation,
}
use unit_ai_specialists.Node.Round.{NodeEvent}
use unit_ai_specialists.Node.Round.Invariant.{
  Keeps, milestones, Good, Fine, transition-Fine, and_then-Fine,
}

complete-status :
    (now : ℕ) (m : String) (g : ℕ) (id : String) (e : Option DispatchActionEnvelope)
    (d : Dispatcher)
    → (complete now m g id e d).status ≡ d.status
unfolding complete set_pending append_action_lifecycle_event
complete-status now m g id none d = refl
complete-status now m g id (some e) d = refl

pending-status :
    (now : ℕ) (m : String) (g : ℕ) (id : Option String) (d : Dispatcher)
    → (acknowledge_pending now m g id d).status ≡ d.status
unfolding acknowledge_pending
pending-status now m g none d = refl
pending-status now m g (some id) d =
    if_both (λ (x : Dispatcher). x.status ≡ d.status)
      (truthy (some id) && is_written (get id d.action_lifecycle))
      {x = complete now m g id (get id d.action_by_id) d} {y = d}
      (λ _. complete-status now m g id (get id d.action_by_id) d) (λ _. refl)

acknowledge_member-status :
    (now : ℕ) (m : String) (member : Option NodeMemberEntry) (d : Dispatcher)
    → (acknowledge_member now m member d).status ≡ d.status
unfolding acknowledge_member
acknowledge_member-status now m none d = refl
acknowledge_member-status now m (some member) d =
    pending-status now m member.generation (d.member_pending_action m member.generation) d

module _ {ℓ} (P : NodeState → ℕ → List NodeEvent → Type ℓ) (k : Keeps P) where
  acknowledge-Good : (now : ℕ) (m : String) (n : Node) → Good P n → Good P (acknowledge now m n)
  unfolding acknowledge maybe_acknowledge_member_action
  acknowledge-Good now m n h =
      subst (λ s. P s n.coordinator_restart_count (milestones n.events))
        (sym (acknowledge_member-status now m (get m (members_of n)) n.actions)) h

  see_status-Good :
      (w : World) (member : NodeMemberEntry) (output status : Option String) (p : Polled)
      → Good P p.node
      → Good P (see_status w member output status p).node
  unfolding see_status move_member put_member set_members
  see_status-Good w member output none p h = h
  see_status-Good w member output (some status) p h =
      let hash = hash_output w (some member.generation) output in
      if_both (λ (q : Polled). Good P q.node)
        (str_eq member.status status && same_hash member.last_seen_output_hash hash) {x = p}
        {y = move_member w member status output hash p} (λ _. h)
        (λ _.
          acknowledge-Good w.now member.member_id
            (put_member (record member { status = status; last_seen_output_hash = hash }) p.node) h)

  see_job-Good :
      (w : World) (member : NodeMemberEntry) (job : Option String) (p : Polled)
      → Good P p.node
      → Good P (see_job w member job p).node
  unfolding see_job
  see_job-Good w member none p h = h
  see_job-Good w member (some job) p h =
      let output = read_output w p.node member.member_id job in
      if_both (λ (q : Polled). Good P q.node) (truthy (some job))
        {x = see_status w member output (w.read_status job) p} {y = p}
        (λ _. see_status-Good w member output (w.read_status job) p h) (λ _. h)

  rebind_job-Good :
      (job : Option String) (member : NodeMemberEntry) (n : Node)
      → Good P n
      → Good P (rebind_job job member n).1
  unfolding rebind_job emit
  rebind_job-Good job member n h =
      if_both (λ (q : NodeMemberEntry × Node). Good P q.1)
        (truthy job && not (same_hash job member.job_id))
        {x = (
          record member { job_id = job },
          emit (member_job_rebound member.member_id member.job_id job member.generation) n,
        )}
        {y = (member, n)} (λ _. h) (λ _. h)

  see_member-Good :
      (w : World) (row : MemberRow) (member : NodeMemberEntry) (p : Polled)
      → Good P p.node
      → Good P (see_member w row member p).node
  unfolding see_member put_member set_members
  see_member-Good w row member p h =
      let generation = row_generation row.generation in
      let bound = rebind_job row.job_id (record member { generation = generation }) p.node in
      let q = record p { node = put_member bound.0 bound.1 } in
      if_both (λ (r : Polled). Good P r.node)
        (not member.enabled || ltb generation member.generation) {x = p}
        {y = see_job w bound.0 bound.0.job_id q} (λ _. h)
        (λ _.
          see_job-Good w bound.0 bound.0.job_id q
            (rebind_job-Good row.job_id (record member { generation = generation }) p.node h))

  see_row-Good :
      (w : World) (row : MemberRow) (member : Option NodeMemberEntry) (p : Polled)
      → Good P p.node
      → Good P (see_row w row member p).node
  unfolding see_row
  see_row-Good w row none p h = h
  see_row-Good w row (some member) p h = see_member-Good w row member p h

  pub poll_rows-Good :
      (w : World) (rows : List MemberRow) (p : Polled)
      → Good P p.node
      → Good P (poll_rows w rows p).node
  unfolding poll_rows
  poll_rows-Good w [] p h = h
  poll_rows-Good w (row ∷ rows) p h =
      poll_rows-Good w rows (see_row w row (get row.member_id (members_of p.node)) p)
        (see_row-Good w row (get row.member_id (members_of p.node)) p h)

  note_change-Good :
      (now : ℕ) (change : MemberStateChange) (member : NodeMemberEntry) (n : Node)
      → Good P n
      → Good P (note_change now change member n)
  unfolding note_change disable emit put_member set_members
  note_change-Good now change member n h =
      let failed = str_eq change.new_status "error" in
      let n1 = if failed then disable member n else n in
      let n2 =
        emit
          (member_state_changed member.member_id change.prev_status change.new_status
            member.generation)
          n1 in
      let heard = emit (member_output_received member.member_id) n2 in
      let n3 = if truthy change.output then heard else n2 in
      let h1 : Good P n1 =
        if_both (Good P) failed {x = disable member n} {y = n} (λ _. h) (λ _. h) in
      let h3 : Good P n3 =
        if_both (Good P) (truthy change.output) {x = heard} {y = n2} (λ _. h1) (λ _. h1) in
      if_both (Good P) failed {x = emit (member_failed member.member_id member.generation) n3}
        {y = n3} (λ _. h3) (λ _. h3)

  cleared-Fine : (f : Flow) → Fine P f → Fine P (and_then f clear_degraded)
  cleared-Fine f h = and_then-Fine P k f clear_degraded h (λ n h'. h')

  judge_change-Fine :
      (w : World) (bad : Bool) (member : NodeMemberEntry) (n : Node)
      → Good P n
      → Fine P (judge_change w bad member n)
  unfolding judge_change emit
  judge_change-Fine w bad member n h =
      let worse = transition NodeState.degraded member_error_or_critical_context n in
      let told = emit (member_recovered member.member_id member.generation) n in
      let better = transition NodeState.running all_members_healthy told in
      let active =
        same_state (status_of n) NodeState.running || same_state (status_of n) NodeState.waiting in
      let healed =
        same_state (status_of n) NodeState.degraded
        && same_state (recompute_node_health w n) NodeState.running in
      if_both (Fine P) bad {x = if active then and_then worse clear_degraded else onward n}
        {y = if healed then and_then better clear_degraded else onward n}
        (λ _.
          if_both (Fine P) active {x = and_then worse clear_degraded} {y = onward n}
            (λ _.
              cleared-Fine worse
                (transition-Fine P k NodeState.degraded member_error_or_critical_context n h))
            (λ _. h))
        (λ _.
          if_both (Fine P) healed {x = and_then better clear_degraded} {y = onward n}
            (λ _.
              cleared-Fine better
                (transition-Fine P k NodeState.running all_members_healthy told h))
            (λ _. h))

  apply_member-Fine :
      (w : World) (change : MemberStateChange) (member : Option NodeMemberEntry) (n : Node)
      → Good P n
      → Fine P (apply_member w change member n)
  unfolding apply_member
  apply_member-Fine w change none n h = h
  apply_member-Fine w change (some member) n h =
      judge_change-Fine w _ member (note_change w.now change member n)
        (note_change-Good w.now change member n h)

  pub apply_changes-Fine :
      (w : World) (changes : List MemberStateChange) (n : Node)
      → Good P n
      → Fine P (apply_changes w changes n)
  unfolding apply_changes
  apply_changes-Fine w [] n h = h
  apply_changes-Fine w (change ∷ changes) n h =
      let member = get change.member_id (members_of n) in
      and_then-Fine P k (apply_member w change member n) (apply_changes w changes)
        (apply_member-Fine w change member n h) (apply_changes-Fine w changes)
