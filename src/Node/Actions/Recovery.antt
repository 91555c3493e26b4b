-- ===== src/Node/Actions/Recovery.antt =====
-- `bootstrap` of a node that ran before: the events in the database are replayed, and the actions
-- that they leave open are queued again or pending again.
pub mod Replay
pub mod Agree
pub mod Sound
pub mod Laws
pub mod Stuck
use unit_ai_specialists.Common.{
  ℕ, Bool, true, false, not, ◌&&◌, Option, none, some, List, [], ◌∷◌, ◌++◌, String, str_eq, truthy,
  if◌then◌else◌,
}
use unit_ai_specialists.Common.Dict.{Dict, get, set, values}
use unit_ai_specialists.Node.States.{NodeState}
use unit_ai_specialists.Node.Members.{NodeMemberEntry}
use unit_ai_specialists.Node.Actions.{
  ActionLifecycleState, queued, written, observed, superseded, completed, failed, ActionEvent,
  lifecycle, dropped, NodeDispatchAction, DispatchActionEnvelope, Dispatcher, includes,
  is_completed, add_action_key, set_pending,
}
use unit_ai_specialists.Node.Actions.Drain.{or_text}

abbrev pub nested_number : Option ℕ → ℕ → ℕ
nested_number none n = n
nested_number (some g) n = g

abbrev pub nested_text : Option String → Option String → Option String
nested_text none t = t
nested_text (some s) t = some s

abbrev pub guarded : Bool → DispatchActionEnvelope → Option DispatchActionEnvelope
guarded b e = if b then some e else none

-- The payload of `action_queued` holds the action; the payload of the others holds its id, member,
-- type, generation and dependency.
abbrev pub nested_envelope : DispatchActionEnvelope → DispatchActionEnvelope
nested_envelope e =
    let id = or_text e.action.action_id e.action_id in
    let generation = nested_number e.action.target_generation e.target_generation in
    let depends = nested_text e.action.depends_on_action_id e.depends_on_action_id in
    record {
      action_id = id;
      target_generation = generation;
      depends_on_action_id = depends;
      action = record e.action {
        action_id = some id;
        target_generation = some generation;
        depends_on_action_id = depends;
      };
    }

abbrev pub flat_envelope : DispatchActionEnvelope → DispatchActionEnvelope
flat_envelope e = record {
  action_id = e.action_id;
  target_generation = e.target_generation;
  depends_on_action_id = e.depends_on_action_id;
  action = record {
    type = e.action.type;
    member_id = e.action.member_id;
    task = none;
    message = none;
    action_id = some e.action_id;
    target_generation = some e.target_generation;
    depends_on_action_id = e.depends_on_action_id;
  };
}

-- `restoreActionFromEvent`: an event with no id or no member restores nothing.
unfoldable pub restore_action :
    ActionLifecycleState → DispatchActionEnvelope → Option DispatchActionEnvelope
restore_action queued e =
    guarded
      (truthy (some e.action.member_id) && truthy (some (or_text e.action.action_id e.action_id)))
      (nested_envelope e)
restore_action _ e =
    guarded (truthy (some e.action_id) && truthy (some e.action.member_id)) (flat_envelope e)

-- What the loop over the events builds beside the fields of the node.
pub record Recovery : Type 0 where
  pub node : Dispatcher
  pub lifecycle_by_action_id : Dict DispatchActionEnvelope

-- The map and the sets of the node after an event that names an action.
unfoldable pub replay_state :
    ActionLifecycleState → DispatchActionEnvelope → Dispatcher → Dispatcher
replay_state completed e d = set_pending e.action.member_id e.target_generation none (record d {
  completed_action_ids =
      if includes e.action_id d.completed_action_ids
      then d.completed_action_ids
      else d.completed_action_ids ++ e.action_id ∷ [];
})
replay_state written e d = set_pending e.action.member_id e.target_generation (some e.action_id) d
replay_state _ e d = d

unfoldable pub replay_restored :
    ActionLifecycleState → Option DispatchActionEnvelope → Recovery → Recovery
unfolding replay_state set_pending
replay_restored state none r = r
replay_restored state (some e) r =
    let d =
      replay_state state e
        (record r.node { action_by_id = set e.action_id e r.node.action_by_id }) in
    record {
      node = record d { action_lifecycle = set e.action_id state d.action_lifecycle };
      lifecycle_by_action_id = set e.action_id e r.lifecycle_by_action_id;
    }

unfoldable pub replay_event : ActionEvent → Recovery → Recovery
unfolding replay_restored restore_action
replay_event (dropped a reason) r = r
replay_event (lifecycle e state reason) r = replay_restored state (restore_action state e) r

unfoldable pub replay : List ActionEvent → Recovery → Recovery
unfolding replay_event
replay [] r = r
replay (ev ∷ log) r = replay log (replay_event ev r)

unfoldable pub reopen :
    Option ActionLifecycleState → DispatchActionEnvelope → Dispatcher → Dispatcher
reopen (some queued) e d =
    add_action_key e.action (record d { dispatch_queue = d.dispatch_queue ++ e ∷ [] })
reopen (some written) e d = set_pending e.action.member_id e.target_generation (some e.action_id) d
reopen (some observed) e d = set_pending e.action.member_id e.target_generation (some e.action_id) d
reopen _ e d = d

unfoldable pub reopen_all : List DispatchActionEnvelope → Dispatcher → Dispatcher
unfolding reopen
reopen_all [] d = d
reopen_all (e ∷ rest) d = reopen_all rest (reopen (get e.action_id d.action_lifecycle) e d)

unfoldable pub recover : List ActionEvent → Dispatcher → Dispatcher
unfolding replay reopen_all
recover log d =
    let r = replay log (record { node = d; lifecycle_by_action_id = [] }) in
    reopen_all (values r.lifecycle_by_action_id) r.node
