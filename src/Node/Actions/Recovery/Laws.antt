-- ===== src/Node/Actions/Recovery/Laws.antt =====
-- What a restarted node has of the actions of the process before it.
use unit_ai_specialists.Common.{
  ℕ, Bool, true, false, ◌&&◌, ◌||◌, ◌≡◌, ◌↔◌, refl, sym, ap, ◌∙◌, subst, inl, inr, Option, none,
  some, List, [], ◌∷◌, String, str_eq, eq_iff, defined, any, Bool-cases, arith,
}
use unit_ai_specialists.Common.Dict.{Dict, get, values}
use unit_ai_specialists.Node.States.{NodeState}
use unit_ai_specialists.Node.Members.{NodeMemberEntry}
use unit_ai_specialists.Node.Actions.{
  ActionLifecycleState, queued, written, observed, ActionEvent, lifecycle, dropped,
  DispatchActionEnvelope, Dispatcher, add_action_key, set_pending,
}
use unit_ai_specialists.Node.Actions.Queues.{in_queue, in_queue-append}
use unit_ai_specialists.Node.Actions.Runs.{Reach, fresh}
use unit_ai_specialists.Node.Actions.Recovery.{
  Recovery, replay, replay_event, replay_restored, restore_action, reopen, reopen_all, recover,
}
use unit_ai_specialists.Node.Actions.Recovery.Replay.{same_id}
use unit_ai_specialists.Node.Actions.Recovery.Sound.{Reach-Sound}
use unit_ai_specialists.Node.Actions.Recovery.Agree.{restart}

-- Queueing again changes no state and no completed id.
reopen-states :
    (o : Option ActionLifecycleState) (e : DispatchActionEnvelope) (d : Dispatcher)
    → ((reopen o e d).action_lifecycle ≡ d.action_lifecycle)
      × ((reopen o e d).completed_action_ids ≡ d.completed_action_ids)
unfolding reopen add_action_key set_pending
reopen-states (some queued) e d = (refl, refl)
reopen-states (some written) e d = (refl, refl)
reopen-states (some observed) e d = (refl, refl)
reopen-states _ e d = (refl, refl)

pub reopen_all-states :
    (es : List DispatchActionEnvelope) (d : Dispatcher)
    → ((reopen_all es d).action_lifecycle ≡ d.action_lifecycle)
      × ((reopen_all es d).completed_action_ids ≡ d.completed_action_ids)
unfolding reopen_all
reopen_all-states [] d = (refl, refl)
reopen_all-states (e ∷ es) d =
    let d' = reopen (get e.action_id d.action_lifecycle) e d in
    let (s, i) = reopen_all-states es d' in
    let (s', i') = reopen-states (get e.action_id d.action_lifecycle) e d in (s ∙ s', i ∙ i')

abbrev pub is_queued : Option ActionLifecycleState → Bool
is_queued (some queued) = true
is_queued _ = false

reopen-queue :
    (id : String) (o : Option ActionLifecycleState) (e : DispatchActionEnvelope) (d : Dispatcher)
    → in_queue id (reopen o e d).dispatch_queue
      ≡ (in_queue id d.dispatch_queue || (str_eq e.action_id id && is_queued o))
unfolding reopen add_action_key set_pending
reopen-queue id (some queued) e d = ground (arith, in_queue-append id d.dispatch_queue e)
reopen-queue id (some written) e d = ground arith
reopen-queue id (some observed) e d = ground arith
reopen-queue id o e d = ground arith

-- Some envelope with this id is open in the states.
abbrev pub opens : String → Dict ActionLifecycleState → List DispatchActionEnvelope → Bool
opens id states es = any (λ e. str_eq e.action_id id && is_queued (get e.action_id states)) es

or_assoc : (a b c : Bool) → ((a || b) || c) ≡ (a || (b || c))
or_assoc true b c = refl
or_assoc false b c = refl

pub reopen_all-queue :
    (id : String) (es : List DispatchActionEnvelope) (d : Dispatcher)
    → in_queue id (reopen_all es d).dispatch_queue
      ≡ (in_queue id d.dispatch_queue || opens id d.action_lifecycle es)
unfolding reopen_all
reopen_all-queue id [] d = ground arith
reopen_all-queue id (e ∷ es) d =
    let o = get e.action_id d.action_lifecycle in
    let d' = reopen o e d in
    let ih = reopen_all-queue id es d' in
    let step = reopen-queue id o e d in
    let same = (reopen-states o e d).0 in
    ih
    ∙ ap (λ b. b || opens id d'.action_lifecycle es) step
    ∙ ap
        (λ s.
          (in_queue id d.dispatch_queue || (str_eq e.action_id id && is_queued o)) || opens id s es)
        same
    ∙ or_assoc (in_queue id d.dispatch_queue) (str_eq e.action_id id && is_queued o)
        (opens id d.action_lifecycle es)

opens-queued :
    (id : String) (states : Dict ActionLifecycleState) (es : List DispatchActionEnvelope)
    → opens id states es ≡ true
    → is_queued (get id states) ≡ true
opens-queued id states [] h = absurd (cc h)
opens-queued id states (e ∷ es) h =
    elim (Bool-cases (str_eq e.action_id id && is_queued (get e.action_id states))) [
      | inl here ↦
          subst (λ i. is_queued (get i states) ≡ true) ((eq_iff e.action_id id).0 (ground arith))
            (ground arith)
      | inr there ↦ opens-queued id states es (rw there at h)
    ]

pub queued-opens :
    (id : String) (states : Dict ActionLifecycleState) (by_id : Dict DispatchActionEnvelope)
    → same_id id (get id by_id) ≡ true
    → is_queued (get id states) ≡ true
    → opens id states (values by_id) ≡ true
unfolding get
queued-opens id states [] h q = absurd (cc h)
queued-opens id states ((j, e) ∷ m) h q = elim (Bool-cases (str_eq j id)) [
  | inl here ↦
      let same : str_eq e.action_id id ≡ true = rw here at h in
      let open_e : is_queued (get e.action_id states) ≡ true =
        subst (λ i. is_queued (get i states) ≡ true) (sym ((eq_iff e.action_id id).0 same)) q in
      rw (same, open_e) refl
  | inr there ↦ let rest = queued-opens id states m (rw there at h) q in ground (arith, rest)
]

was_queued : (o : Option ActionLifecycleState) → is_queued o ≡ true → o ≡ some queued
was_queued o h = ground arith

replay_restored-queue :
    (state : ActionLifecycleState) (o : Option DispatchActionEnvelope) (r : Recovery)
    → (replay_restored state o r).node.dispatch_queue ≡ r.node.dispatch_queue
unfolding replay_restored
replay_restored-queue state none r = refl
replay_restored-queue queued (some e) r = refl
replay_restored-queue _ (some e) r = refl

-- The replay itself queues nothing.
pub replay-queue :
    (log : List ActionEvent) (r : Recovery)
    → (replay log r).node.dispatch_queue ≡ r.node.dispatch_queue
unfolding replay replay_event
replay-queue [] r = refl
replay-queue (dropped a reason ∷ log) r = replay-queue log r
replay-queue (lifecycle e state reason ∷ log) r =
    replay-queue log (replay_event (lifecycle e state reason) r)
    ∙ replay_restored-queue state (restore_action state e) r

-- After any run of a new process, a restarted node queues again exactly the actions whose last event
-- is `action_queued`.
pub recovered_queue :
    (status : NodeState) (members : Dict NodeMemberEntry) (controllers : List String) (now : ℕ)
    (status' : NodeState) (members' : Dict NodeMemberEntry) (controllers' : List String) (now' : ℕ)
    (d : Dispatcher) (id : String)
    → Reach (fresh status' members' controllers' now') d
    → (in_queue id (recover d.log (fresh status members controllers now)).dispatch_queue ≡ true)
      ↔ (get id d.action_lifecycle ≡ some queued)
unfolding recover fresh
recovered_queue status members controllers now status' members' controllers' now' d id r =
    let start = restart status members controllers now in
    let h =
      (Reach-Sound status members controllers now status' members' controllers' now' r).agree in
    let by_id = (replay d.log start).lifecycle_by_action_id in
    let node = (replay d.log start).node in
    let all_of : (in_queue id (reopen_all (values by_id) node).dispatch_queue)
        ≡ opens id d.action_lifecycle (values by_id) =
      reopen_all-queue id (values by_id) node
      ∙ ap (λ q. in_queue id q || opens id node.action_lifecycle (values by_id))
          (replay-queue d.log start)
      ∙ ap (λ s. opens id s (values by_id)) h.states_agree in
    (
      λ q.
          was_queued (get id d.action_lifecycle)
            (opens-queued id d.action_lifecycle (values by_id) (sym all_of ∙ q)),
      λ q.
          all_of
          ∙ queued-opens id d.action_lifecycle by_id
              (h.owners id (subst (λ o. defined o ≡ true) (sym q) refl))
              (subst (λ o. is_queued o ≡ true) (sym q) refl),
    )
