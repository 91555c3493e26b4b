-- ===== src/Node/Actions/Recovery/Sound.antt =====
-- In every run the log and the envelopes of a node are sound.
use unit_ai_specialists.Common.{ℕ, true, ◌≡◌, refl, none, some, List, [], ◌∷◌, ◌++◌, String, truthy}
use unit_ai_specialists.Common.Dict.{Dict, get, set}
use unit_ai_specialists.Node.States.{NodeState}
use unit_ai_specialists.Node.Members.{NodeMemberEntry}
use unit_ai_specialists.Node.Actions.{
  queued, NodeDispatchAction, DispatchActionEnvelope, Dispatcher, drop_action, add_action_key,
  delete_action_key, append_action_lifecycle_event,
}
use unit_ai_specialists.Node.Actions.Drain.{or_text, record_outcome, drain_dispatch_queue}
use unit_ai_specialists.Node.Actions.Dispatch.{envelope_of, push_envelope, count_id}
use unit_ai_specialists.Node.Actions.Runs.{Reach, fresh, change, drain_inv, reach_inv}
use unit_ai_specialists.Node.Actions.Recovery.{Recovery, replay}
use unit_ai_specialists.Node.Actions.Recovery.Replay.{Named}
use unit_ai_specialists.Node.Actions.Recovery.Agree.{
  restart, Agree, Sound, drained-Sound, recorded-Draining, pushed-Held, completed-Sound,
  dropped-Agree, appended-Agree,
}

envelope_of-Named :
    (id : String) (a : NodeDispatchAction) (d : Dispatcher)
    → truthy (some (or_text a.action_id id)) ≡ true
    → truthy (some a.member_id) ≡ true
    → Named (envelope_of id a d)
unfolding envelope_of
envelope_of-Named id a d named owned = record { named = named; owned = owned; own_id = refl }

module _ (start : Recovery) where
  pushed-Agree :
      (now : ℕ) (e : DispatchActionEnvelope) (d : Dispatcher)
      → Named e
      → Agree start d
      → Agree start (push_envelope now e d)
  unfolding push_envelope add_action_key append_action_lifecycle_event
  pushed-Agree now e d n h =
      appended-Agree start now e queued none
        (add_action_key e.action (record d {
          dispatch_queue = d.dispatch_queue ++ e ∷ [];
          action_by_id = set e.action_id e d.action_by_id;
        }))
        n h

  pushed-Sound :
      (now : ℕ) (e : DispatchActionEnvelope) (d : Dispatcher)
      → Named e
      → Sound start d
      → Sound start (push_envelope now e d)
  unfolding push_envelope add_action_key append_action_lifecycle_event
  pushed-Sound now e d n h = record {
    held = pushed-Held start now e d n h.held;
    agree = pushed-Agree now e d n h.agree;
  }

  drained-queue-Sound :
      (now : ℕ) (d : Dispatcher) → Sound start d → Sound start (drain_dispatch_queue now d)
  drained-queue-Sound now d p =
      drain_inv (Sound start) now d (λ _. p)
        (λ _. drained-Sound start now d.dispatch_queue d (record {
          waiting_named = p.held.queue_named;
          known_named = p.held.id_named;
          agreed = p.agree;
        }))

fresh-Sound :
    (status status' : NodeState) (members members' : Dict NodeMemberEntry)
    (controllers controllers' : List String) (now now' : ℕ)
    → Sound (restart status members controllers now) (fresh status' members' controllers' now')
unfolding fresh replay get
fresh-Sound status status' members members' controllers controllers' now now' = record {
  held = record {
    queue_named = tt;
    sent_named = λ e eq. absurd (cc eq);
    id_named = λ id e eq. absurd (cc eq);
  };
  agree = record { states_agree = refl; ids_agree = refl; owners = λ id known. absurd (cc known) };
}

-- From a new process on.
pub Reach-Sound :
    (status : NodeState) (members : Dict NodeMemberEntry) (controllers : List String) (now : ℕ)
    (status' : NodeState) (members' : Dict NodeMemberEntry) (controllers' : List String) (now' : ℕ)
    {d : Dispatcher}
    → Reach (fresh status' members' controllers' now') d
    → Sound (restart status members controllers now) d
unfolding change delete_action_key drop_action
Reach-Sound status members controllers now status' members' controllers' now' r =
    let start = restart status members controllers now in
    reach_inv (Sound start) (drained-queue-Sound start)
      (λ a reason d h. record { held = h.held; agree = dropped-Agree start a reason d h.agree })
      (λ t id a d named owned _ h.
        drained-queue-Sound start t (push_envelope t (envelope_of id a d) (count_id a d)) (
          pushed-Sound start t (envelope_of id a d) (count_id a d)
            (envelope_of-Named id a d named owned) (record { held = h.held; agree = h.agree })))
      (λ _ _ h. record { held = h.held; agree = h.agree })
      (λ t outcome e d eq h.
        drained-Sound start t d.dispatch_queue (record_outcome t outcome e d)
          (recorded-Draining start t outcome e d eq h))
      (λ _ _ h. record { held = h.held; agree = h.agree })
      (λ t m g id e d _ _ known h. completed-Sound start t m g id e d known h)
      (λ _ _ _ _ h. record { held = h.held; agree = h.agree })
      (fresh-Sound status status' members members' controllers controllers' now now') r
