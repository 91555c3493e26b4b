-- ===== src/Node/Actions/Recovery/Agree.antt =====
-- In every run the replay of the log agrees with the states that the node keeps in memory.
use unit_ai_specialists.Common.{
  ℕ, true, ◌≡◌, ap, ◌∙◌, subst, inl, inr, Option, none, some, List, [], ◌∷◌, ◌++◌, String, str_eq,
  eq_iff, defined, All, All-append, Bool-cases, arith,
}
use unit_ai_specialists.Common.Dict.{Dict, get, set, get-set}
use unit_ai_specialists.Node.States.{NodeState}
use unit_ai_specialists.Node.Members.{NodeMemberEntry}
use unit_ai_specialists.Node.Actions.{
  ActionLifecycleState, written, observed, completed, failed, Reason, thrown, lifecycle,
  NodeDispatchAction, DispatchActionEnvelope, Dispatcher, append_action_lifecycle_event,
  set_pending, delete_action_key, drop_action,
}
use unit_ai_specialists.Node.Actions.Drain.{
  judge, refused, refuse, rest_idle, hand_over, drain_loop, record_outcome,
}
use unit_ai_specialists.Node.Actions.Acknowledge.{complete}
use unit_ai_specialists.Node.Actions.Runs.{fresh, drain_loop_inv}
use unit_ai_specialists.Node.Actions.Recovery.{Recovery, replay, replay_event}
use unit_ai_specialists.Node.Actions.Recovery.Replay.{
  Named, same_id, extend, replayed_state, replayed_ids, replayed_owner, replay-append,
}

-- The restarted process, before it reads the events.
abbrev pub restart : NodeState → Dict NodeMemberEntry → List String → ℕ → Recovery
restart status members controllers now = record {
  node = fresh status members controllers now;
  lifecycle_by_action_id = [];
}

pub record AgreeBy (r : Recovery) (states : Dict ActionLifecycleState) (ids : List String)
    : Type 0 where
  pub states_agree : r.node.action_lifecycle ≡ states
  pub ids_agree : r.node.completed_action_ids ≡ ids
  pub owners :
      (id : String)
      → defined (get id states) ≡ true
      → same_id id (get id r.lifecycle_by_action_id) ≡ true

-- The envelopes that a node holds.
pub record Held (queue : List DispatchActionEnvelope) (sent : Option DispatchActionEnvelope)
    (by_id : Dict DispatchActionEnvelope) : Type 0 where
  pub queue_named : All Named queue
  pub sent_named : (e : DispatchActionEnvelope) → sent ≡ some e → Named e
  pub id_named :
      (id : String) (e : DispatchActionEnvelope)
      → get id by_id ≡ some e
      → Named e × (e.action_id ≡ id)

event-AgreeBy :
    (e : DispatchActionEnvelope) (state : ActionLifecycleState) (reason : Option Reason)
    (r : Recovery) (states : Dict ActionLifecycleState) (ids : List String)
    → Named e
    → AgreeBy r states ids
    → AgreeBy
        (replay_event (lifecycle e state reason) r)
        (set e.action_id state states)
        (extend ids state e.action_id)
event-AgreeBy e state reason r states ids n h = record {
  states_agree =
      replayed_state e state reason r n ∙ ap (λ m. set e.action_id state m) h.states_agree;
  ids_agree = replayed_ids e state reason r n ∙ ap (λ l. extend l state e.action_id) h.ids_agree;
  owners = λ id known.
      rw (replayed_owner e state reason r n id)
        (ground (arith, get-set id e.action_id state states, h.owners id));
}

-- A refusal completes nothing.
refused-extend :
    (d : Dispatcher) (e : DispatchActionEnvelope) (state : ActionLifecycleState) (reason : Reason)
    → judge d e ≡ refused state reason
    → extend d.completed_action_ids state e.action_id ≡ d.completed_action_ids
unfolding judge
refused-extend d e state reason h = ground arith

module _ (start : Recovery) where
  abbrev pub Agree : Dispatcher → Type 0
  Agree d = AgreeBy (replay d.log start) d.action_lifecycle d.completed_action_ids

  pub appended-Agree :
      (now : ℕ) (e : DispatchActionEnvelope) (state : ActionLifecycleState) (reason : Option Reason)
      (d : Dispatcher)
      → Named e
      → Agree d
      → AgreeBy
          (replay (append_action_lifecycle_event now e state reason d).log start)
          (append_action_lifecycle_event now e state reason d).action_lifecycle
          (extend d.completed_action_ids state e.action_id)
  unfolding append_action_lifecycle_event
  appended-Agree now e state reason d n h = rw replay-append (
      event-AgreeBy e state reason (replay d.log start) d.action_lifecycle d.completed_action_ids n
        h)

  pub dropped-Agree :
      (a : NodeDispatchAction) (reason : Reason) (d : Dispatcher)
      → Agree d
      → Agree (drop_action a reason d)
  unfolding drop_action replay_event
  dropped-Agree a reason d h = rw replay-append h

  -- A drain starts with named envelopes and ends so.
  pub record Draining (queue : List DispatchActionEnvelope) (d : Dispatcher) : Type 0 where
    pub waiting_named : All Named queue
    pub known_named :
        (id : String) (e : DispatchActionEnvelope)
        → get id d.action_by_id ≡ some e
        → Named e × (e.action_id ≡ id)
    pub agreed : Agree d

  pub record Sound (d : Dispatcher) : Type 0 where
    pub held : Held d.dispatch_queue d.sending d.action_by_id
    pub agree : Agree d

  refused-Draining :
      (now : ℕ) (e : DispatchActionEnvelope) (rest : List DispatchActionEnvelope) (d : Dispatcher)
      (state : ActionLifecycleState) (reason : Reason)
      → judge d e ≡ refused state reason
      → Draining (e ∷ rest) d
      → Draining rest (refuse now e state reason d)
  unfolding refuse delete_action_key append_action_lifecycle_event
  refused-Draining now e rest d state reason eq h = record {
    waiting_named = h.waiting_named.1;
    known_named = h.known_named;
    agreed =
        subst
          (λ ids.
            AgreeBy (replay (append_action_lifecycle_event now e state (some reason) d).log start)
              (set e.action_id state d.action_lifecycle) ids)
          (refused-extend d e state reason eq)
          (appended-Agree now e state (some reason) d h.waiting_named.0 h.agreed);
  }

  handed-Sound :
      (e : DispatchActionEnvelope) (rest : List DispatchActionEnvelope) (d : Dispatcher)
      (job : String)
      → Draining (e ∷ rest) d
      → Sound (hand_over job e rest d)
  unfolding hand_over
  handed-Sound e rest d job h = record {
    held = record {
      queue_named = h.waiting_named.1;
      sent_named = λ x eq. subst Named (let same : e ≡ x = cc eq in same) h.waiting_named.0;
      id_named = h.known_named;
    };
    agree = h.agreed;
  }

  idle-Sound : (d : Dispatcher) → Draining [] d → Sound (rest_idle d)
  unfolding rest_idle
  idle-Sound d h = record {
    held = record {
      queue_named = tt;
      sent_named = λ x eq. absurd (cc eq);
      id_named = h.known_named;
    };
    agree = h.agreed;
  }

  pub drained-Sound :
      (now : ℕ) (queue : List DispatchActionEnvelope) (d : Dispatcher)
      → Draining queue d
      → Sound (drain_loop now queue d)
  drained-Sound now queue d h =
      drain_loop_inv Draining Sound now (refused-Draining now) idle-Sound
        (λ e rest d' job _ p. handed-Sound e rest d' job p) queue d h

  pub recorded-Draining :
      (now : ℕ) (outcome : Option String) (e : DispatchActionEnvelope) (d : Dispatcher)
      → d.sending ≡ some e
      → Sound d
      → Draining d.dispatch_queue (record_outcome now outcome e d)
  unfolding record_outcome delete_action_key set_pending append_action_lifecycle_event
  recorded-Draining now none e d eq h = record {
    waiting_named = h.held.queue_named;
    known_named = h.held.id_named;
    agreed =
        appended-Agree now e written none
          (set_pending e.action.member_id e.target_generation (some e.action_id) d)
          (h.held.sent_named e eq) h.agree;
  }
  recorded-Draining now (some message) e d eq h = record {
    waiting_named = h.held.queue_named;
    known_named = h.held.id_named;
    agreed = appended-Agree now e failed (some (thrown message)) d (h.held.sent_named e eq) h.agree;
  }

  pub pushed-Held :
      (now : ℕ) (e : DispatchActionEnvelope) (d : Dispatcher)
      → Named e
      → Held d.dispatch_queue d.sending d.action_by_id
      → Held (d.dispatch_queue ++ e ∷ []) d.sending (set e.action_id e d.action_by_id)
  pushed-Held now e d n h = record {
    queue_named = All-append Named d.dispatch_queue (e ∷ []) h.queue_named (n, tt);
    sent_named = h.sent_named;
    id_named = λ id x known. elim (Bool-cases (str_eq e.action_id id)) [
      | inl same ↦
          let k : some e ≡ some x = rw (get-set, same) at known in
          let y : e ≡ x = cc k in
          subst (λ z. Named z × (z.action_id ≡ id)) y (n, (eq_iff e.action_id id).0 same)
      | inr other ↦ h.id_named id x (rw (get-set, other) at known)
    ];
  }

  pub completed-Sound :
      (now : ℕ) (m : String) (g : ℕ) (id : String) (e : DispatchActionEnvelope) (d : Dispatcher)
      → get id d.action_by_id ≡ some e
      → Sound d
      → Sound (complete now m g id (some e) d)
  unfolding complete set_pending append_action_lifecycle_event
  completed-Sound now m g id e d known h =
      let (n, same) = h.held.id_named id e known in
      let seen = append_action_lifecycle_event now e observed none d in
      let once : Agree seen = appended-Agree now e observed none d n h.agree in
      record {
        held = h.held;
        agree =
            subst
              (λ i.
                AgreeBy (replay (append_action_lifecycle_event now e completed none seen).log start)
                  (append_action_lifecycle_event now e completed none seen).action_lifecycle
                  (extend d.completed_action_ids completed i))
              same (appended-Agree now e completed none seen n once);
      }
