-- ===== src/Node/Actions/Recovery/Replay.antt =====
-- The replay of a log rebuilds the states of the actions that the log was written with.
use unit_ai_specialists.Common.{
  Bool, true, false, ◌&&◌, ◌||◌, ◌≡◌, refl, sym, ap, ◌∙◌, subst, Option, none, some, List, [], ◌∷◌,
  ◌++◌, String, str_eq, truthy, if◌then◌else◌, arith,
}
use unit_ai_specialists.Common.Dict.{get, set, get-set}
use unit_ai_specialists.Node.Actions.{
  ActionLifecycleState, queued, written, observed, superseded, completed, failed, Reason,
  ActionEvent, lifecycle, DispatchActionEnvelope, includes,
}
use unit_ai_specialists.Node.Actions.Drain.{or_text}
use unit_ai_specialists.Node.Actions.Recovery.{
  Recovery, replay, replay_event, replay_restored, restore_action, nested_envelope, flat_envelope,
  guarded,
}

-- An envelope that the dispatch builds: named, owned, and with its id in its action.
pub record Named (e : DispatchActionEnvelope) : Type 0 where
  pub named : truthy (some e.action_id) ≡ true
  pub owned : truthy (some e.action.member_id) ≡ true
  pub own_id : e.action.action_id ≡ some e.action_id

abbrev pub same_id : String → Option DispatchActionEnvelope → Bool
same_id id none = false
same_id id (some e) = str_eq e.action_id id

abbrev pub extend : List String → ActionLifecycleState → String → List String
extend ids completed id = if includes id ids then ids else ids ++ id ∷ []
extend ids _ id = ids

or_text-some : (o : Option String) (a b : String) → o ≡ some a → or_text o b ≡ a
or_text-some none a b h = absurd (cc h)
or_text-some (some x) a b h = cc h

-- What an event restores has the id of what was logged.
abbrev Restored : ActionLifecycleState → DispatchActionEnvelope → Type 0
Restored state e =
    (e' : DispatchActionEnvelope) × (restore_action state e ≡ some e')
    × (e'.action_id ≡ e.action_id)

nested-Restored : (e : DispatchActionEnvelope) → Named e → Restored queued e
unfolding restore_action
nested-Restored e n =
    let same = or_text-some e.action.action_id e.action_id e.action_id n.own_id in
    let t : truthy (some (or_text e.action.action_id e.action_id)) ≡ true =
      subst (λ s. truthy (some s) ≡ true) (sym same) n.named in
    (nested_envelope e, ground (arith, n.owned), same)

flat-Restored :
    (e : DispatchActionEnvelope)
    → Named e
    → guarded (truthy (some e.action_id) && truthy (some e.action.member_id)) (flat_envelope e)
      ≡ some (flat_envelope e)
flat-Restored e n = ground (arith, n.owned, n.named)

Named-Restored :
    (state : ActionLifecycleState) (e : DispatchActionEnvelope) → Named e → Restored state e
unfolding restore_action
Named-Restored queued e n = nested-Restored e n
Named-Restored written e n = (flat_envelope e, flat-Restored e n, refl)
Named-Restored observed e n = (flat_envelope e, flat-Restored e n, refl)
Named-Restored superseded e n = (flat_envelope e, flat-Restored e n, refl)
Named-Restored completed e n = (flat_envelope e, flat-Restored e n, refl)
Named-Restored failed e n = (flat_envelope e, flat-Restored e n, refl)

restored_state :
    (state : ActionLifecycleState) (e : DispatchActionEnvelope) (r : Recovery)
    → (replay_restored state (some e) r).node.action_lifecycle
      ≡ set e.action_id state r.node.action_lifecycle
unfolding replay_restored
restored_state queued e r = refl
restored_state _ e r = refl

restored_ids :
    (state : ActionLifecycleState) (e : DispatchActionEnvelope) (r : Recovery)
    → (replay_restored state (some e) r).node.completed_action_ids
      ≡ extend r.node.completed_action_ids state e.action_id
unfolding replay_restored
restored_ids queued e r = refl
restored_ids _ e r = refl

restored_owner :
    (state : ActionLifecycleState) (e : DispatchActionEnvelope) (r : Recovery) (id : String)
    → same_id id (get id (replay_restored state (some e) r).lifecycle_by_action_id)
      ≡ (str_eq e.action_id id || same_id id (get id r.lifecycle_by_action_id))
unfolding replay_restored
restored_owner state e r id = ground (arith, get-set id e.action_id e r.lifecycle_by_action_id)

-- What an event leaves in a replay: its state at its id, an envelope with that id, and the id among
-- the completed ones if it says so.
module _ (e : DispatchActionEnvelope) (state : ActionLifecycleState) (reason : Option Reason)
    (r : Recovery) (n : Named e) where
  pub replayed_state :
      (replay_event (lifecycle e state reason) r).node.action_lifecycle
      ≡ set e.action_id state r.node.action_lifecycle
  unfolding replay_event
  replayed_state =
      let (e', eq, same) = Named-Restored state e n in
      ap (λ o. (replay_restored state o r).node.action_lifecycle) eq
      ∙ restored_state state e' r
      ∙ ap (λ id. set id state r.node.action_lifecycle) same

  pub replayed_ids :
      (replay_event (lifecycle e state reason) r).node.completed_action_ids
      ≡ extend r.node.completed_action_ids state e.action_id
  unfolding replay_event
  replayed_ids =
      let (e', eq, same) = Named-Restored state e n in
      ap (λ o. (replay_restored state o r).node.completed_action_ids) eq
      ∙ restored_ids state e' r
      ∙ ap (λ id. extend r.node.completed_action_ids state id) same

  pub replayed_owner :
      (id : String)
      → same_id id (get id (replay_event (lifecycle e state reason) r).lifecycle_by_action_id)
        ≡ (str_eq e.action_id id || same_id id (get id r.lifecycle_by_action_id))
  unfolding replay_event
  replayed_owner id =
      let (e', eq, same) = Named-Restored state e n in
      ap (λ o. same_id id (get id (replay_restored state o r).lifecycle_by_action_id)) eq
      ∙ restored_owner state e' r id
      ∙ ap (λ s. str_eq s id || same_id id (get id r.lifecycle_by_action_id)) same

pub replay-append :
    (xs : List ActionEvent) (x : ActionEvent) (r : Recovery)
    → replay (xs ++ x ∷ []) r ≡ replay_event x (replay xs r)
unfolding replay
replay-append [] x r = refl
replay-append (y ∷ ys) x r = replay-append ys x (replay_event y r)
