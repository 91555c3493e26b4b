-- ===== src/Node/Actions/Boot.antt =====
-- How a process of a node starts: new, or by `bootstrap` from the events of the processes before it,
-- whatever they are.
use unit_ai_specialists.Common.{
  ℕ, true, false, ◌≡◌, refl, sym, ap, ◌∙◌, subst, Option, none, some, List, [], ◌∷◌, String,
  defined, arith,
}
use unit_ai_specialists.Common.Dict.{Dict, get, get-set, values}
use unit_ai_specialists.Node.States.{NodeState}
use unit_ai_specialists.Node.Members.{NodeMemberEntry}
use unit_ai_specialists.Node.Actions.{
  ActionLifecycleState, queued, written, observed, completed, ActionEvent, lifecycle, dropped,
  DispatchActionEnvelope, Dispatcher, set_pending, add_action_key,
}
use unit_ai_specialists.Node.Actions.Runs.{fresh}
use unit_ai_specialists.Node.Actions.Queues.{in_queue}
use unit_ai_specialists.Node.Actions.Recovery.{
  Recovery, replay, replay_event, replay_restored, replay_state, restore_action, reopen, reopen_all,
  recover,
}
use unit_ai_specialists.Node.Actions.Recovery.Replay.{same_id}
use unit_ai_specialists.Node.Actions.Recovery.Agree.{restart}
use unit_ai_specialists.Node.Actions.Recovery.Laws.{
  is_queued, reopen_all-states, reopen_all-queue, queued-opens,
}

pub data Started : Dispatcher → Type 0 where
  anew :
      (status : NodeState) (members : Dict NodeMemberEntry) (controllers : List String) (now : ℕ)
      → Started (fresh status members controllers now)
  again :
      (status : NodeState) (members : Dict NodeMemberEntry) (controllers : List String) (now : ℕ)
      (log : List ActionEvent)
      → Started (recover log (fresh status members controllers now))

-- What holds before the first drain. The log is that of this process.
pub record Booted (d : Dispatcher) : Type 0 where
  pub queues :
      (id : String) → get id d.action_lifecycle ≡ some queued → in_queue id d.dispatch_queue ≡ true
  pub idle : d.is_draining ≡ false
  pub unsent : d.sending ≡ none
  pub silent : d.log ≡ []

-- The fields that a recovery does not touch.
abbrev Quiet : Dispatcher → Type 0
Quiet d = (d.is_draining ≡ false) × (d.sending ≡ none) × (d.log ≡ [])

abbrev Owned : Recovery → Type 0
Owned r =
    (id : String)
    → defined (get id r.node.action_lifecycle) ≡ true
    → same_id id (get id r.lifecycle_by_action_id) ≡ true

restored-Owned :
    (state : ActionLifecycleState) (o : Option DispatchActionEnvelope) (r : Recovery)
    → Owned r
    → Owned (replay_restored state o r)
unfolding replay_restored replay_state set_pending
restored-Owned state none r h id = h id
restored-Owned completed (some e) r h id = ground (
  arith,
  get-set id e.action_id completed r.node.action_lifecycle,
  get-set id e.action_id e r.lifecycle_by_action_id,
  h id,
)
restored-Owned state (some e) r h id = ground (
  arith,
  get-set id e.action_id state r.node.action_lifecycle,
  get-set id e.action_id e r.lifecycle_by_action_id,
  h id,
)

restored-Quiet :
    (state : ActionLifecycleState) (o : Option DispatchActionEnvelope) (r : Recovery)
    → Quiet r.node
    → Quiet (replay_restored state o r).node
unfolding replay_restored replay_state set_pending
restored-Quiet state none r h = h
restored-Quiet completed (some e) r h = h
restored-Quiet written (some e) r h = h
restored-Quiet state (some e) r h = h

replay_inv {ℓ} :
    (P : Recovery → Type ℓ)
    → ((state : ActionLifecycleState) (o : Option DispatchActionEnvelope) (r : Recovery)
        → P r
        → P (replay_restored state o r))
    → (log : List ActionEvent) (r : Recovery) → P r
    → P (replay log r)
unfolding replay replay_event
replay_inv P keeps [] r h = h
replay_inv P keeps (dropped a reason ∷ log) r h = replay_inv P keeps log r h
replay_inv P keeps (lifecycle e state reason ∷ log) r h =
    replay_inv P keeps log (replay_event (lifecycle e state reason) r)
      (keeps state (restore_action state e) r h)

reopen-Quiet :
    (o : Option ActionLifecycleState) (e : DispatchActionEnvelope) (d : Dispatcher)
    → Quiet d
    → Quiet (reopen o e d)
unfolding reopen add_action_key set_pending
reopen-Quiet (some queued) e d h = h
reopen-Quiet (some written) e d h = h
reopen-Quiet (some observed) e d h = h
reopen-Quiet _ e d h = h

reopen_all-Quiet :
    (es : List DispatchActionEnvelope) (d : Dispatcher) → Quiet d → Quiet (reopen_all es d)
unfolding reopen_all
reopen_all-Quiet [] d h = h
reopen_all-Quiet (e ∷ es) d h =
    reopen_all-Quiet es (reopen (get e.action_id d.action_lifecycle) e d)
      (reopen-Quiet (get e.action_id d.action_lifecycle) e d h)

pub Started-Booted : {d : Dispatcher} → Started d → Booted d
unfolding fresh recover get
Started-Booted (anew status members controllers now) = record {
  queues = λ id q. absurd (cc q);
  idle = refl;
  unsent = refl;
  silent = refl;
}
Started-Booted (again status members controllers now log) =
    let start = restart status members controllers now in
    let r = replay log start in
    let es = values r.lifecycle_by_action_id in
    let owned = replay_inv Owned restored-Owned log start (λ id k. absurd (cc k)) in
    let quiet = replay_inv (λ x. Quiet x.node) restored-Quiet log start (refl, refl, refl) in
    let (idle, unsent, silent) = reopen_all-Quiet es r.node quiet in
    record {
      queues = λ id q.
          let was : get id r.node.action_lifecycle ≡ some queued =
            ap (get id) (sym (reopen_all-states es r.node).0) ∙ q in
          reopen_all-queue id es r.node
          ∙ ground (
            arith,
            queued-opens id r.node.action_lifecycle r.lifecycle_by_action_id
                (owned id (subst (λ o. defined o ≡ true) (sym was) refl))
                (subst (λ o. is_queued o ≡ true) (sym was) refl),
          );
      idle = idle;
      unsent = unsent;
      silent = silent;
    }
