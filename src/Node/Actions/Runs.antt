-- ===== src/Node/Actions/Runs.antt =====
-- The interleavings of a node's dispatch: dispatches, answers of controllers, acknowledgements by
-- the poll, and any change of members, controllers and status by the rest of the node. A run ends
-- where `cleanupJobs` empties the queue.
use unit_ai_specialists.Common.{
  ℕ, true, false, not, ◌&&◌, ◌||◌, ◌≡◌, refl, ◌⊎◌, inl, inr, Option, none, some, List, [], ◌∷◌,
  ◌++◌, String, str_eq, if_both, leb, ◌<◌, truthy, any, if◌then◌else◌, arith,
}
use unit_ai_specialists.Common.Dict.{Dict, get}
use unit_ai_specialists.Node.States.{NodeState}
use unit_ai_specialists.Node.Members.{NodeMemberEntry}
use unit_ai_specialists.Node.Actions.{
  includes, is_resume, resume_allowed, written, drop_action, queued_for, same_action_key,
  duplicate_action, member_queue_full, resume_not_allowed, delete_action_key, Reason,
  ActionLifecycleState, NodeDispatchAction, DispatchActionEnvelope, Dispatcher,
}
use unit_ai_specialists.Node.Actions.Dispatch.{
  is_final, accept, count_id, envelope_of, push_envelope, dispatch_action, dispatch_end,
}
use unit_ai_specialists.Node.Actions.Acknowledge.{
  is_written, complete, acknowledge_pending, acknowledge_member, maybe_acknowledge_member_action,
}
use unit_ai_specialists.Node.Actions.Drain.{
  drain_dispatch_queue, settle_sent, record_outcome, Verdict, refused, handed, judge, refuse,
  hand_over, rest_idle, drain_loop, or_text, settle,
}

unfoldable pub fresh : NodeState → Dict NodeMemberEntry → List String → ℕ → Dispatcher
fresh status members controllers now = record {
  status = status;
  members = members;
  member_controllers = controllers;
  dispatch_queue = [];
  queued_action_keys = [];
  action_lifecycle = [];
  completed_action_ids = [];
  member_pending_action = λ m g. none;
  action_by_id = [];
  next_action_sequence = 0;
  is_draining = false;
  sending = none;
  last_completed_action_at_ms = now;
  log = [];
  calls = [];
}

-- What the rest of the node may do to the fields that the dispatch reads.
unfoldable pub change : NodeState → Dict NodeMemberEntry → List String → Dispatcher → Dispatcher
change status members controllers d = record d {
  status = status;
  members = members;
  member_controllers = controllers;
}

-- The runs from a dispatcher. Every action names a member, and its id, given or new, is not empty.
-- `run` drains the queue of a recovered node itself.
pub data Reach (start : Dispatcher) : Dispatcher → Type 0 where
  begins : Reach start start
  drains : {d : Dispatcher} (now : ℕ) → Reach start d → Reach start (drain_dispatch_queue now d)
  dispatches :
      {d : Dispatcher} (pct : String → Option ℕ) (now : ℕ) (new_id : String)
      (action : NodeDispatchAction)
      → truthy (some (or_text action.action_id new_id)) ≡ true
      → truthy (some action.member_id) ≡ true
      → Reach start d
      → Reach start (dispatch_action pct now new_id action d)
  settles :
      {d : Dispatcher} (now : ℕ) (outcome : Option String)
      → Reach start d
      → Reach start (settle now outcome d)
  ends :
      {d : Dispatcher} (e : DispatchActionEnvelope) → Reach start d → Reach start (dispatch_end e d)
  acknowledges :
      {d : Dispatcher} (now : ℕ) (m : String)
      → Reach start d
      → Reach start (maybe_acknowledge_member_action now m d)
  changes :
      {d : Dispatcher} (status : NodeState) (members : Dict NodeMemberEntry)
      (controllers : List String)
      → Reach start d
      → Reach start (change status members controllers d)

pub includes-append :
    (y z : String) (l : List String) → includes y (l ++ z ∷ []) ≡ (includes y l || str_eq y z)
includes-append y z [] = ground arith
includes-append y z (w ∷ l) = ground (arith, includes-append y z l)

pub Verdict-cases :
    (v : Verdict)
    → ((state : ActionLifecycleState) × (reason : Reason) × (v ≡ refused state reason))
      ⊎ ((job : String) × (v ≡ handed job))
Verdict-cases (refused state reason) = inl (state, reason, refl)
Verdict-cases (handed job) = inr (job, refl)

-- What each refusal keeps holds when the drain goes idle and when it hands an action over.
module _ {ℓ} (P : List DispatchActionEnvelope → Dispatcher → Type ℓ) (Q : Dispatcher → Type ℓ)
    (now : ℕ)
    (refuses : (e : DispatchActionEnvelope) (rest : List DispatchActionEnvelope) (d : Dispatcher)
        (state : ActionLifecycleState) (reason : Reason)
      → judge d e ≡ refused state reason
      → P (e ∷ rest) d
      → P rest (refuse now e state reason d))
    (idles : (d : Dispatcher) → P [] d → Q (rest_idle d))
    (hands : (e : DispatchActionEnvelope) (rest : List DispatchActionEnvelope) (d : Dispatcher)
        (job : String)
      → judge d e ≡ handed job
      → P (e ∷ rest) d
      → Q (hand_over job e rest d)) where
  pub drain_loop_inv :
      (queue : List DispatchActionEnvelope) (d : Dispatcher)
      → P queue d
      → Q (drain_loop now queue d)
  unfolding drain_loop
  drain_loop_inv [] d p = idles d p
  drain_loop_inv (e ∷ rest) d p = elim (Verdict-cases (judge d e)) [
    | inl (state, reason, eq) ↦
        rw (eq, drain_loop)
          (drain_loop_inv rest (refuse now e state reason d) (refuses e rest d state reason eq p))
    | inr (job, eq) ↦ rw (eq, drain_loop) (hands e rest d job eq p)
  ]

pub drain_inv {ℓ} :
    (Q : Dispatcher → Type ℓ) (now : ℕ) (d : Dispatcher)
    → (d.is_draining ≡ true → Q d)
    → (d.is_draining ≡ false → Q (drain_loop now d.dispatch_queue d))
    → Q (drain_dispatch_queue now d)
unfolding drain_dispatch_queue
drain_inv Q now d busy idle =
    if_both Q d.is_draining {x = d} {y = drain_loop now d.dispatch_queue d} busy idle

was_written : (s : Option ActionLifecycleState) → is_written s ≡ true → s ≡ some written
was_written s h = ground arith

-- An invariant of the steps that the operations are made of holds in every run.
module _ {ℓ} (P : Dispatcher → Type ℓ)
    (drained : (now : ℕ) (d : Dispatcher) → P d → P (drain_dispatch_queue now d))
    (drops : (a : NodeDispatchAction) (reason : Reason) (d : Dispatcher)
      → P d
      → P (drop_action a reason d))
    (pushes : (now : ℕ) (id : String) (a : NodeDispatchAction) (d : Dispatcher)
      → truthy (some (or_text a.action_id id)) ≡ true
      → truthy (some a.member_id) ≡ true
      → queued_for a.member_id d.dispatch_queue < 5
      → P d
      → P (drain_dispatch_queue now (push_envelope now (envelope_of id a d) (count_id a d))))
    (counts : (a : NodeDispatchAction) (d : Dispatcher) → P d → P (count_id a d))
    (answers : (now : ℕ) (outcome : Option String) (e : DispatchActionEnvelope) (d : Dispatcher)
      → d.sending ≡ some e
      → P d
      → P (drain_loop now d.dispatch_queue (record_outcome now outcome e d)))
    (deletes : (a : NodeDispatchAction) (d : Dispatcher) → P d → P (delete_action_key a d))
    (completes : (now : ℕ) (m : String) (g : ℕ) (id : String) (e : DispatchActionEnvelope)
        (d : Dispatcher)
      → d.member_pending_action m g ≡ some id
      → get id d.action_lifecycle ≡ some written
      → get id d.action_by_id ≡ some e
      → P d
      → P (complete now m g id (some e) d))
    (moves : (status : NodeState) (members : Dict NodeMemberEntry) (controllers : List String)
        (d : Dispatcher)
      → P d
      → P (change status members controllers d)) where
  dispatched_inv :
      (pct : String → Option ℕ) (now : ℕ) (id : String) (a : NodeDispatchAction) (d : Dispatcher)
      → truthy (some (or_text a.action_id id)) ≡ true
      → truthy (some a.member_id) ≡ true
      → P d
      → P (dispatch_action pct now id a d)
  unfolding dispatch_action accept
  dispatched_inv pct now id a d named owned p =
      let e = envelope_of id a d in
      let accepted = accept now e (count_id a d) in
      let full = drop_action a member_queue_full d in
      if_both P (is_resume a.type && not (resume_allowed pct d.status (get a.member_id d.members)))
        {x = drop_action a resume_not_allowed d}
        {y = if leb 5 (queued_for a.member_id d.dispatch_queue) then full else accepted}
        (λ _. drops a resume_not_allowed d p)
        (λ _.
          if_both P (leb 5 (queued_for a.member_id d.dispatch_queue)) {x = full} {y = accepted}
            (λ _. drops a member_queue_full d p)
            (λ room.
              if_both P (any (same_action_key e.action) (count_id a d).queued_action_keys)
                {x = drop_action e.action duplicate_action (count_id a d)}
                {y = drain_dispatch_queue now (push_envelope now e (count_id a d))}
                (λ _. drops e.action duplicate_action (count_id a d) (counts a d p))
                (λ _. pushes now id a d named owned (ground arith) p)))

  settled_inv :
      (now : ℕ) (outcome : Option String) (d : Dispatcher)
      → P d
      → (sent : Option DispatchActionEnvelope) → d.sending ≡ sent
      → P (settle_sent now outcome sent d)
  unfolding settle_sent
  settled_inv now outcome d p none eq = p
  settled_inv now outcome d p (some e) eq = answers now outcome e d eq p

  ended_inv : (e : DispatchActionEnvelope) (d : Dispatcher) → P d → P (dispatch_end e d)
  unfolding dispatch_end
  ended_inv e d p =
      if_both P (is_final (get e.action_id d.action_lifecycle)) {x = delete_action_key e.action d}
        {y = d} (λ _. deletes e.action d p) (λ _. p)

  completed_inv :
      (now : ℕ) (m : String) (g : ℕ) (id : String) (d : Dispatcher)
      → d.member_pending_action m g ≡ some id
      → get id d.action_lifecycle ≡ some written
      → P d
      → (found : Option DispatchActionEnvelope) → get id d.action_by_id ≡ found
      → P (complete now m g id found d)
  unfolding complete
  completed_inv now m g id d own w p none eq = p
  completed_inv now m g id d own w p (some e) eq = completes now m g id e d own w eq p

  pending_inv :
      (now : ℕ) (m : String) (g : ℕ) (d : Dispatcher)
      → P d
      → (pending : Option String) → d.member_pending_action m g ≡ pending
      → P (acknowledge_pending now m g pending d)
  unfolding acknowledge_pending
  pending_inv now m g d p none own = p
  pending_inv now m g d p (some id) own =
      let done = complete now m g id (get id d.action_by_id) d in
      if_both P (truthy (some id) && is_written (get id d.action_lifecycle)) {x = done} {y = d}
        (λ t.
          completed_inv now m g id d own (was_written (get id d.action_lifecycle) (ground arith)) p
            (get id d.action_by_id) refl)
        (λ _. p)

  acknowledged_inv :
      (now : ℕ) (m : String) (d : Dispatcher)
      → P d
      → (member : Option NodeMemberEntry) → P (acknowledge_member now m member d)
  unfolding acknowledge_member
  acknowledged_inv now m d p none = p
  acknowledged_inv now m d p (some member) =
      pending_inv now m member.generation d p (d.member_pending_action m member.generation) refl

  pub reach_inv : {start d : Dispatcher} → P start → Reach start d → P d
  unfolding settle maybe_acknowledge_member_action
  reach_inv begun begins = begun
  reach_inv begun (drains now r) = drained now _ (reach_inv begun r)
  reach_inv begun (dispatches pct now id a named owned r) =
      dispatched_inv pct now id a _ named owned (reach_inv begun r)
  reach_inv begun (settles {d} now outcome r) =
      settled_inv now outcome d (reach_inv begun r) d.sending refl
  reach_inv begun (ends e r) = ended_inv e _ (reach_inv begun r)
  reach_inv begun (acknowledges {d} now m r) =
      acknowledged_inv now m d (reach_inv begun r) (get m d.members)
  reach_inv begun (changes status members controllers r) =
      moves status members controllers _ (reach_inv begun r)
