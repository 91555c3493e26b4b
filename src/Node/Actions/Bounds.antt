-- ===== src/Node/Actions/Bounds.antt =====
-- The queue of actions stays within `MAX_QUEUED_ACTIONS_PER_MEMBER` for each member.
use unit_ai_specialists.Common.{
  ℕ, ◌+◌, ◌≤◌, ◌<◌, ◌≡◌, inl, inr, List, [], ◌∷◌, ◌++◌, String, str_eq, eq_iff, leb, if◌then◌else◌,
  Bool-cases, subst, arith,
}
use unit_ai_specialists.Node.Actions.{
  DispatchActionEnvelope, Dispatcher, queued_for, add_action_key, delete_action_key,
  append_action_lifecycle_event, set_pending, drop_action,
}
use unit_ai_specialists.Node.Actions.Dispatch.{count_id, push_envelope, envelope_of}
use unit_ai_specialists.Node.Actions.Drain.{
  drain_loop, drain_dispatch_queue, hand_over, rest_idle, record_outcome,
}
use unit_ai_specialists.Node.Actions.Acknowledge.{complete}
use unit_ai_specialists.Node.Actions.Runs.{drain_inv, drain_loop_inv, reach_inv, Reach, change}

-- What a queue may hold for a member, which had so many actions at the start of a run.
abbrev pub room_for : ℕ → ℕ
room_for n = if leb n 5 then 5 else n

queued_for-append :
    (m : String) (xs : List DispatchActionEnvelope) (e : DispatchActionEnvelope)
    → queued_for m (xs ++ e ∷ []) ≡ queued_for m xs + (if str_eq e.action.member_id m then 1 else 0)
unfolding queued_for
queued_for-append m [] e = ground arith
queued_for-append m (x ∷ xs) e = ground (arith, queued_for-append m xs e)

queued_for-tail :
    (m : String) (e : DispatchActionEnvelope) (xs : List DispatchActionEnvelope)
    → queued_for m xs ≤ queued_for m (e ∷ xs)
unfolding queued_for
queued_for-tail m e xs = ground arith

module _ (start : Dispatcher) where
  abbrev Bounded : List DispatchActionEnvelope → Type 0
  Bounded queue = (m : String) → queued_for m queue ≤ room_for (queued_for m start.dispatch_queue)

  drain_loop-Bounded :
      (now : ℕ) (d : Dispatcher) (queue : List DispatchActionEnvelope)
      → Bounded queue
      → Bounded (drain_loop now queue d).dispatch_queue
  unfolding rest_idle hand_over queued_for
  drain_loop-Bounded now d queue h =
      drain_loop_inv (λ q _. Bounded q) (λ d'. Bounded d'.dispatch_queue) now
        (λ e rest _ _ _ _ p m. omega (arith, queued_for-tail m e rest, p m)) (λ _ p m. p m)
        (λ e rest _ _ _ p m. omega (arith, queued_for-tail m e rest, p m)) queue d h

  drained-Bounded :
      (now : ℕ) (d : Dispatcher)
      → Bounded d.dispatch_queue
      → Bounded (drain_dispatch_queue now d).dispatch_queue
  drained-Bounded now d h =
      drain_inv (λ r. Bounded r.dispatch_queue) now d (λ _. h)
        (λ _. drain_loop-Bounded now d d.dispatch_queue h)

  push_envelope-Bounded :
      (now : ℕ) (e : DispatchActionEnvelope) (d : Dispatcher)
      → queued_for e.action.member_id d.dispatch_queue < 5
      → Bounded d.dispatch_queue
      → Bounded (push_envelope now e d).dispatch_queue
  unfolding push_envelope add_action_key append_action_lifecycle_event
  push_envelope-Bounded now e d room h m = elim (Bool-cases (str_eq e.action.member_id m)) [
    | inl same ↦
        let room' : queued_for m d.dispatch_queue < 5 =
          subst (λ s. queued_for s d.dispatch_queue < 5) ((eq_iff e.action.member_id m).0 same)
            room in
        rw (queued_for-append, same) (ground (arith, room'))
    | inr other ↦ rw (queued_for-append, other) (omega (arith, h m))
  ]

-- A run makes no member's queue longer than `MAX_QUEUED_ACTIONS_PER_MEMBER`, or than it was at the
-- start of the run, if that was more: a recovered node may start with more.
pub queue_bounded :
    (start d : Dispatcher) (m : String)
    → Reach start d
    → queued_for m d.dispatch_queue ≤ room_for (queued_for m start.dispatch_queue)
unfolding change drop_action delete_action_key complete set_pending append_action_lifecycle_event
    envelope_of
queue_bounded start d m r =
    reach_inv (λ d'. Bounded start d'.dispatch_queue) (drained-Bounded start) (λ _ _ _ h. h)
      (λ now id a d' _ _ room h.
        drained-Bounded start now (push_envelope now (envelope_of id a d') (count_id a d'))
          (push_envelope-Bounded start now (envelope_of id a d') (count_id a d') room h))
      (λ _ _ h. h)
      (λ now outcome e d' _ h.
        drain_loop-Bounded start now (record_outcome now outcome e d') d'.dispatch_queue h)
      (λ _ _ h. h) (λ _ _ _ _ _ _ _ _ _ h. h) (λ _ _ _ _ h. h)
      (λ k. within (queued_for k start.dispatch_queue)) r m
  where
    within : (n : ℕ) → n ≤ room_for n
    within n = ground arith
