-- ===== src/Node/Actions/Owed.antt =====
-- What the actions that were handed over owe: an acknowledgement, while they are pending.
use unit_ai_specialists.Common.{
  ℕ, ◌==◌, ==_iff, ==_refl, eq_iff, eq_refl, true, false, ◌≢◌, sym, ap, ◌∙◌, All, All-mono,
  All-append, ◌&&◌, ◌≡◌, refl, subst, inl, inr, Option, none, some, List, [], ◌∷◌, ◌++◌, String,
  str_eq, truthy, if◌then◌else◌, Bool-cases, if_both, arith,
}
use unit_ai_specialists.Node.Actions.{
  ActionLifecycleState, written, observed, completed, failed, Reason, thrown, ActionEvent,
  lifecycle, dropped, DispatchActionEnvelope, Dispatcher, unfinished, includes,
  append_action_lifecycle_event, set_pending, delete_action_key,
}
use unit_ai_specialists.Node.Actions.Drain.{
  refused, refuse, drain_dispatch_queue, judge, judge_job, rest_idle, hand_over, drain_loop,
  record_outcome,
}
use unit_ai_specialists.Node.Actions.Acknowledge.{complete}
use unit_ai_specialists.Node.Actions.Runs.{drain_inv, drain_loop_inv, includes-append}
use unit_ai_specialists.Node.Actions.Alone.{Free, Alone}

-- An event that this process wrote for an action that is handed over and not completed: the action is
-- the pending one of its member and generation.
abbrev pub Owed : (String → ℕ → Option String) → List String → ActionEvent → Type 0
Owed pend ids (lifecycle e written reason) =
    truthy (some e.action_id) ≡ true
    → includes e.action_id ids ≡ false
    → pend e.action.member_id e.target_generation ≡ some e.action_id
Owed pend ids _ = Unit {0}

abbrev pub Owes : Dispatcher → Type 0
Owes d = All (Owed d.member_pending_action d.completed_action_ids) d.log

other-Owed :
    (pend : String → ℕ → Option String) (ids : List String) (e : DispatchActionEnvelope)
    (state : ActionLifecycleState) (reason : Option Reason)
    → state ≢ written
    → Owed pend ids (lifecycle e state reason)
other-Owed pend ids e written reason n = absurd (n refl)
other-Owed pend ids e _ reason n = tt

judge-ne-written :
    (d : Dispatcher) (e : DispatchActionEnvelope) (state : ActionLifecycleState) (reason : Reason)
    → judge d e ≡ refused state reason
    → state ≢ written
unfolding judge judge_job
judge-ne-written d e state reason eq q = ground arith

pub drained-Owes :
    (now : ℕ) (queue : List DispatchActionEnvelope) (d : Dispatcher)
    → Owes d
    → Owes (drain_loop now queue d)
unfolding refuse rest_idle hand_over delete_action_key append_action_lifecycle_event
drained-Owes now queue d h =
    drain_loop_inv (λ _ d'. Owes d') Owes now
      (λ e rest d' state reason eq p.
        All-append (Owed d'.member_pending_action d'.completed_action_ids) d'.log
          (lifecycle e state (some reason) ∷ []) p
          (
            other-Owed d'.member_pending_action d'.completed_action_ids e state (some reason)
                (judge-ne-written d' e state reason eq),
            tt,
          ))
      (λ _ p. p) (λ _ _ _ _ _ p. p) queue d h

pub drained-queue-Owes : (now : ℕ) (d : Dispatcher) → Owes d → Owes (drain_dispatch_queue now d)
drained-queue-Owes now d h =
    drain_inv Owes now d (λ _. h) (λ _. drained-Owes now d.dispatch_queue d h)

-- What was owed stays owed when the pending actions and the completed ones change like this.
kept-Owed :
    (pend pend' : String → ℕ → Option String) (ids ids' : List String)
    → ((m : String) (g : ℕ) (id : String)
        → truthy (some id) ≡ true
        → includes id ids' ≡ false
        → (includes id ids ≡ false → pend m g ≡ some id)
        → pend' m g ≡ some id)
    → (ev : ActionEvent) → Owed pend ids ev
    → Owed pend' ids' ev
kept-Owed pend pend' ids ids' k (lifecycle e written reason) o =
    λ t n. k e.action.member_id e.target_generation e.action_id t n (o t)
kept-Owed pend pend' ids ids' k (lifecycle e _ reason) o = tt
kept-Owed pend pend' ids ids' k (dropped a reason) o = tt

pub recorded-Owes :
    (now : ℕ) (outcome : Option String) (e : DispatchActionEnvelope) (d : Dispatcher)
    → d.sending ≡ some e
    → Alone d
    → Owes d
    → Owes (record_outcome now outcome e d)
unfolding record_outcome delete_action_key append_action_lifecycle_event set_pending
recorded-Owes now (some message) e d sent alone h =
    All-append (Owed d.member_pending_action d.completed_action_ids) d.log
      (lifecycle e failed (some (thrown message)) ∷ []) h (tt, tt)
recorded-Owes now none e d sent alone h =
    let at = e.action.member_id in
    let in_generation = e.target_generation in
    let ids = d.completed_action_ids in
    let pend' = (set_pending at in_generation (some e.action_id) d).member_pending_action in
    let free : Free at in_generation d = alone e sent in
    All-append (Owed pend' ids) d.log (lifecycle e written none ∷ [])
      (All-mono
        (λ ev o.
          kept-Owed d.member_pending_action pend' ids ids
            (λ m g id t n was.
              if_both (λ (p : Option String). p ≡ some id) (str_eq at m && in_generation == g)
                {x = some e.action_id} {y = d.member_pending_action m g}
                (λ same.
                  let here : d.member_pending_action at in_generation ≡ some id =
                    subst (λ k. d.member_pending_action at k ≡ some id)
                      (sym ((==_iff in_generation g).0 (ground arith)))
                      (subst (λ k. d.member_pending_action k g ≡ some id)
                        (sym ((eq_iff at m).0 (ground arith))) (was n)) in
                  let free' : unfinished (some id) ids ≡ false =
                    subst (λ p. unfinished p ids ≡ false) here free in
                  absurd (ground (arith, free', t, n)))
                (λ _. was n))
            ev o)
        d.log h)
      (λ _ _. ground (arith, eq_refl at, ==_refl in_generation), tt)

includes-more :
    (x id : String) (ids : List String)
    → includes x (if includes id ids then ids else ids ++ id ∷ []) ≡ false
    → (includes x ids ≡ false) × (str_eq x id ≡ false)
includes-more x id ids n = elim (Bool-cases (includes id ids)) [
  | inl there ↦
      let left : includes x ids ≡ false = rw there at n in
      (
        left,
        elim (Bool-cases (str_eq x id)) [
          | inl same ↦ absurd (cc (left, there, ap (λ k. includes k ids) ((eq_iff x id).0 same)))
          | inr other ↦ other
        ],
      )
  | inr absent ↦ ground (arith, includes-append x id ids, n, absent)
]

pub completed-Owes :
    (now : ℕ) (m : String) (g : ℕ) (id : String) (e : DispatchActionEnvelope) (d : Dispatcher)
    → d.member_pending_action m g ≡ some id
    → Owes d
    → Owes (complete now m g id (some e) d)
unfolding complete set_pending append_action_lifecycle_event
completed-Owes now m g id e d own h =
    let ids = d.completed_action_ids in
    let ids' = if includes id ids then ids else ids ++ id ∷ [] in
    let pend' = (set_pending m g none d).member_pending_action in
    let kept : All (Owed pend' ids') d.log =
      All-mono
        (λ ev o.
          kept-Owed d.member_pending_action pend' ids ids'
            (λ m' g' x t n was.
              let (n', other) = includes-more x id ids n in
              if_both (λ (p : Option String). p ≡ some x) (str_eq m m' && g == g') {x = none}
                {y = d.member_pending_action m' g'}
                (λ same.
                  let here : d.member_pending_action m g ≡ some x =
                    subst (λ k. d.member_pending_action m k ≡ some x)
                      (sym ((==_iff g g').0 (ground arith)))
                      (subst (λ k. d.member_pending_action k g' ≡ some x)
                        (sym ((eq_iff m m').0 (ground arith))) (was n')) in
                  let both : some id ≡ some x = sym own ∙ here in
                  let one : id ≡ x = cc both in absurd (cc (other, (eq_iff x id).1 (sym one))))
                (λ _. was n'))
            ev o)
        d.log h in
    All-append (Owed pend' ids') (d.log ++ lifecycle e observed none ∷ [])
      (lifecycle e completed none ∷ [])
      (All-append (Owed pend' ids') d.log (lifecycle e observed none ∷ []) kept (tt, tt)) (tt, tt)
