-- ===== src/Node/Actions/Alone.antt =====
-- An action is handed over only to a member that has no other one to acknowledge.
use unit_ai_specialists.Common.{
  ℕ, ◌==◌, ==_iff, false, ◌&&◌, ◌≡◌, refl, subst, inl, inr, Option, none, some, List, [], ◌∷◌, ◌++◌,
  String, str_eq, truthy, if◌then◌else◌, Bool-cases, if_both, arith,
}
use unit_ai_specialists.Common.Dict.{get}
use unit_ai_specialists.Node.Members.{NodeMemberEntry}
use unit_ai_specialists.Node.Actions.{
  DispatchActionEnvelope, Dispatcher, unfinished, includes, append_action_lifecycle_event,
  set_pending,
}
use unit_ai_specialists.Node.Actions.Drain.{
  handed, judge, judge_job, judge_id, judge_member, rest_idle, hand_over, drain_loop,
}
use unit_ai_specialists.Node.Actions.Acknowledge.{complete}
use unit_ai_specialists.Node.Actions.Runs.{drain_loop_inv, includes-append}

-- No action of this member in this generation waits for an acknowledgement.
abbrev pub Free : String → ℕ → Dispatcher → Type 0
Free m g d = unfinished (d.member_pending_action m g) d.completed_action_ids ≡ false

abbrev pub Alone : Dispatcher → Type 0
Alone d =
    (e : DispatchActionEnvelope)
    → d.sending ≡ some e
    → Free e.action.member_id e.target_generation d

judged-Free :
    (d : Dispatcher) (e : DispatchActionEnvelope) (g : ℕ) (job job' : String)
    → judge_job d e g job ≡ handed job'
    → Free e.action.member_id e.target_generation d
unfolding judge_job
judged-Free d e g job job' h = elim (Bool-cases (g == e.target_generation)) [
  | inl same ↦
      subst (λ k. Free e.action.member_id k d) ((==_iff g e.target_generation).0 same)
        (ground arith)
  | inr other ↦ absurd (ground arith)
]

pub judge-Free :
    (d : Dispatcher) (e : DispatchActionEnvelope) (job : String)
    → judge d e ≡ handed job
    → Free e.action.member_id e.target_generation d
unfolding judge
judge-Free d e job h = elim (Bool-cases (includes e.action.member_id d.member_controllers)) [
  | inl known ↦ member (get e.action.member_id d.members) (rw known at h)
  | inr unknown ↦ absurd (ground arith)
]
  where
    with_id :
        (g : ℕ) (id : Option String)
        → judge_id d e g id ≡ handed job
        → Free e.action.member_id e.target_generation d
    with_id g none k = absurd (ground arith)
    with_id g (some id) k = elim (Bool-cases (truthy (some id))) [
      | inl t ↦ judged-Free d e g id job (ground arith)
      | inr f ↦ absurd (ground arith)
    ]

    member :
        (o : Option NodeMemberEntry)
        → judge_member d e o ≡ handed job
        → Free e.action.member_id e.target_generation d
    member none k = absurd (ground arith)
    member (some entry) k = with_id entry.generation entry.job_id k

handed-Alone :
    (e : DispatchActionEnvelope) (rest : List DispatchActionEnvelope) (d : Dispatcher)
    (job : String)
    → judge d e ≡ handed job
    → Alone (hand_over job e rest d)
unfolding hand_over
handed-Alone e rest d job eq e' sent =
    let same : e ≡ e' = cc sent in
    subst (λ (x : DispatchActionEnvelope). Free x.action.member_id x.target_generation d) same
      (judge-Free d e job eq)

idle-Alone : (d : Dispatcher) → Alone (rest_idle d)
unfolding rest_idle
idle-Alone d e sent = absurd (cc sent)

pub drained-Alone :
    (now : ℕ) (queue : List DispatchActionEnvelope) (d : Dispatcher)
    → Alone (drain_loop now queue d)
drained-Alone now queue d =
    drain_loop_inv (λ _ _. Unit {0}) Alone now (λ _ _ _ _ _ _ _. tt) (λ d' _. idle-Alone d')
      (λ e rest d' job eq _. handed-Alone e rest d' job eq) queue d tt

unfinished-more :
    (o : Option String) (id : String) (ids : List String)
    → unfinished o ids ≡ false
    → unfinished o (if includes id ids then ids else ids ++ id ∷ []) ≡ false
unfinished-more none id ids h = refl
unfinished-more (some x) id ids h = ground (arith, includes-append x id ids)

-- A completion frees its member and generation and takes no freedom away.
pub completed-Alone :
    (now : ℕ) (m : String) (g : ℕ) (id : String) (e : DispatchActionEnvelope) (d : Dispatcher)
    → Alone d
    → Alone (complete now m g id (some e) d)
unfolding complete set_pending append_action_lifecycle_event
completed-Alone now m g id e d h x sent =
    if_both
      (λ (o : Option String).
        unfinished o (
          if includes id d.completed_action_ids
          then d.completed_action_ids
          else d.completed_action_ids ++ id ∷ [])
        ≡ false)
      (str_eq m x.action.member_id && g == x.target_generation) {x = none}
      {y = d.member_pending_action x.action.member_id x.target_generation} (λ _. refl)
      (λ _.
        unfinished-more (d.member_pending_action x.action.member_id x.target_generation) id
          d.completed_action_ids (h x sent))
