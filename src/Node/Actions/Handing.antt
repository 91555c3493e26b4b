-- ===== src/Node/Actions/Handing.antt =====
-- When an action is handed to its member, in every interleaving.
use unit_ai_specialists.Common.{
  ℕ, true, false, sym, All, All-at, All-append, Memᴰ, ◌≡◌, subst, inl, inr, none, some, [], ◌∷◌,
  truthy, Bool-cases, arith,
}
use unit_ai_specialists.Node.Actions.{
  queued, written, lifecycle, dropped, DispatchActionEnvelope, Dispatcher, unfinished, includes,
  append_action_lifecycle_event, add_action_key, delete_action_key, drop_action,
}
use unit_ai_specialists.Node.Actions.Drain.{drain_dispatch_queue, record_outcome}
use unit_ai_specialists.Node.Actions.Dispatch.{push_envelope, count_id, envelope_of}
use unit_ai_specialists.Node.Actions.Boot.{Started, Booted, Started-Booted}
use unit_ai_specialists.Node.Actions.Runs.{Reach, change, drain_inv, reach_inv}
use unit_ai_specialists.Node.Actions.Alone.{Alone, drained-Alone, completed-Alone}
use unit_ai_specialists.Node.Actions.Owed.{
  Owed, Owes, drained-Owes, drained-queue-Owes, recorded-Owes, completed-Owes,
}

record Handed (d : Dispatcher) : Type 0 where
  alone : Alone d
  owes : Owes d

drained-Handed : (now : ℕ) (d : Dispatcher) → Handed d → Handed (drain_dispatch_queue now d)
drained-Handed now d h = record {
  alone = drain_inv Alone now d (λ _. h.alone) (λ _. drained-Alone now d.dispatch_queue d);
  owes = drained-queue-Owes now d h.owes;
}

pushed-Handed :
    (now : ℕ) (e : DispatchActionEnvelope) (d : Dispatcher)
    → Handed d
    → Handed (push_envelope now e d)
unfolding push_envelope add_action_key append_action_lifecycle_event
pushed-Handed now e d h = record {
  alone = h.alone;
  owes =
      All-append (Owed d.member_pending_action d.completed_action_ids) d.log
        (lifecycle e queued none ∷ []) h.owes (tt, tt);
}

begun-Handed : (start : Dispatcher) → Booted start → Handed start
begun-Handed start b = record {
  alone = λ e sent. absurd (cc (sent, b.unsent));
  owes =
      subst (λ l. All (Owed start.member_pending_action start.completed_action_ids) l)
        (sym b.silent) tt;
}

Reach-Handed : {start d : Dispatcher} → Booted start → Reach start d → Handed d
unfolding change drop_action delete_action_key
Reach-Handed {start} b r =
    reach_inv Handed drained-Handed
      (λ a reason d h. record {
        alone = h.alone;
        owes =
            All-append (Owed d.member_pending_action d.completed_action_ids) d.log
              (dropped a reason ∷ []) h.owes (tt, tt);
      })
      (λ now id a d _ _ _ h.
        drained-Handed now (push_envelope now (envelope_of id a d) (count_id a d)) (
          pushed-Handed now (envelope_of id a d) (count_id a d)
            (record { alone = h.alone; owes = h.owes })))
      (λ _ _ h. record { alone = h.alone; owes = h.owes })
      (λ now outcome e d sent h. record {
        alone = drained-Alone now d.dispatch_queue (record_outcome now outcome e d);
        owes =
            drained-Owes now d.dispatch_queue (record_outcome now outcome e d)
              (recorded-Owes now outcome e d sent h.alone h.owes);
      })
      (λ _ _ h. record { alone = h.alone; owes = h.owes })
      (λ now m g id e d own _ _ h. record {
        alone = completed-Alone now m g id e d h.alone;
        owes = completed-Owes now m g id e d own h.owes;
      })
      (λ _ _ _ _ h. record { alone = h.alone; owes = h.owes }) (begun-Handed start b) r

-- While an action is being sent, every action that this process handed to the same member and
-- generation before, with an id that is not empty, has been completed, and so has the one that
-- is pending there, also when it comes from a process before: one action at a time is out.
pub sent_alone :
    (start d : Dispatcher) (e earlier : DispatchActionEnvelope)
    → Started start
    → Reach start d
    → d.sending ≡ some e
    → Memᴰ (lifecycle earlier written none) d.log
    → truthy (some earlier.action_id) ≡ true
    → earlier.action.member_id ≡ e.action.member_id
    → earlier.target_generation ≡ e.target_generation
    → (includes earlier.action_id d.completed_action_ids ≡ true)
      × (unfinished
            (d.member_pending_action e.action.member_id e.target_generation)
            d.completed_action_ids
          ≡ false)
sent_alone start d e earlier s r sent wrote id member generation =
    let h = Reach-Handed (Started-Booted s) r in
    let free = h.alone e sent in
    let owed : Owed d.member_pending_action d.completed_action_ids
        (lifecycle earlier written none) =
      All-at (Owed d.member_pending_action d.completed_action_ids) wrote h.owes in
    (
      elim (Bool-cases (includes earlier.action_id d.completed_action_ids)) [
        | inl done ↦ done
        | inr out ↦
            let pending : d.member_pending_action e.action.member_id e.target_generation
                ≡ some earlier.action_id =
              subst (λ g. d.member_pending_action e.action.member_id g ≡ some earlier.action_id)
                generation
                (subst
                  (λ m.
                    d.member_pending_action m earlier.target_generation ≡ some earlier.action_id)
                  member (owed id out)) in
            let free' : unfinished (some earlier.action_id) d.completed_action_ids ≡ false =
              subst (λ p. unfinished p d.completed_action_ids ≡ false) pending free in
            absurd (ground (arith, free', id, out))
      ],
      free,
    )
