-- ===== src/Node/Actions/Recovery/Stuck.antt =====
-- A restart between `action_observed` and `action_completed` leaves an action that is pending and
-- that nothing completes.
use unit_ai_specialists.Common.{
  ℕ, ◌==◌, ==_iff, true, false, ◌≡◌, ◌≢◌, sym, subst, inl, inr, some, String, Bool-cases, arith,
}
use unit_ai_specialists.Common.Dict.{get}
use unit_ai_specialists.Node.Members.{NodeMemberEntry}
use unit_ai_specialists.Node.Actions.{
  observed, DispatchActionEnvelope, Dispatcher, includes, unfinished,
}
use unit_ai_specialists.Node.Actions.Drain.{handed, judge, judge_member}
use unit_ai_specialists.Node.Actions.Acknowledge.{
  acknowledge_pending, acknowledge_member, maybe_acknowledge_member_action,
}
use unit_ai_specialists.Node.Actions.Alone.{Free, judge-Free}

judge_member-generation :
    (d : Dispatcher) (e : DispatchActionEnvelope) (member : NodeMemberEntry) (job : String)
    → judge_member d e (some member) ≡ handed job
    → (member.generation == e.target_generation) ≡ true
unfolding judge_member
judge_member-generation d e member job h = ground arith

judge-generation :
    (d : Dispatcher) (e : DispatchActionEnvelope) (member : NodeMemberEntry) (job : String)
    → get e.action.member_id d.members ≡ some member
    → judge d e ≡ handed job
    → member.generation ≡ e.target_generation
unfolding judge
judge-generation d e member job found h =
    elim (Bool-cases (includes e.action.member_id d.member_controllers)) [
      | inl known ↦
          let k : judge_member d e (get e.action.member_id d.members) ≡ handed job =
            rw known at h in
          (==_iff member.generation e.target_generation).0 (
            judge_member-generation d e member job
              (subst (λ o. judge_member d e o ≡ handed job) found k))
      | inr unknown ↦ absurd (ground arith)
    ]

-- A pending action whose last event is `action_observed`, as a restart leaves it, is not completed
-- when its member moves, and no action is handed to its member in that generation any more.
pub observed_blocks :
    (now : ℕ) (m id : String) (member : NodeMemberEntry) (d : Dispatcher)
    (e : DispatchActionEnvelope) (job : String)
    → get m d.members ≡ some member
    → d.member_pending_action m member.generation ≡ some id
    → get id d.action_lifecycle ≡ some observed
    → unfinished (some id) d.completed_action_ids ≡ true
    → e.action.member_id ≡ m
    → (maybe_acknowledge_member_action now m d ≡ d) × (judge d e ≢ handed job)
unfolding maybe_acknowledge_member_action acknowledge_member acknowledge_pending
observed_blocks now m id member d e job found pending seen open_id owned = (
  ground (arith, found, pending, seen),
  λ h.
      let found' : get e.action.member_id d.members ≡ some member =
        subst (λ s. get s d.members ≡ some member) (sym owned) found in
      let g = judge-generation d e member job found' h in
      let free : Free m member.generation d =
        subst (λ s. Free s member.generation d) owned
          (subst (λ k. Free e.action.member_id k d) (sym g) (judge-Free d e job h)) in
      let stuck : unfinished (some id) d.completed_action_ids ≡ false =
        subst (λ o. unfinished o d.completed_action_ids ≡ false) pending free in
      absurd (ground (arith, stuck, open_id)),
)
