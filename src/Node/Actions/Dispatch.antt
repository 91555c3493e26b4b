-- ===== src/Node/Actions/Dispatch.antt =====
-- `dispatchAction` (src/specialist/node-supervisor.ts).
use unit_ai_specialists.Common.{
  ℕ, suc, leb, Bool, true, false, not, ◌&&◌, Option, none, some, [], ◌∷◌, ◌++◌, String, defined,
  any, if◌then◌else◌,
}
use unit_ai_specialists.Common.Dict.{get, set}
use unit_ai_specialists.Node.Members.{NodeMemberEntry}
use unit_ai_specialists.Node.Actions.{
  ActionLifecycleState, DispatchActionEnvelope, Dispatcher, NodeDispatchAction, add_action_key,
  append_action_lifecycle_event, completed, delete_action_key, drop_action, duplicate_action,
  failed, generation_of, is_resume, member_queue_full, queued, queued_for, resume_allowed,
  resume_not_allowed, same_action_key, superseded,
}
use unit_ai_specialists.Node.Actions.Drain.{drain_dispatch_queue, or_text}

abbrev pub target_of : Option ℕ → Option NodeMemberEntry → ℕ
target_of none member = generation_of member
target_of (some g) member = g

-- The envelope that `dispatchAction` builds; `new_id` is the id that `nextActionId` gives.
unfoldable pub envelope_of : String → NodeDispatchAction → Dispatcher → DispatchActionEnvelope
envelope_of new_id action d =
    let id = or_text action.action_id new_id in
    let generation = target_of action.target_generation (get action.member_id d.members) in
    record {
      action_id = id;
      target_generation = generation;
      depends_on_action_id = action.depends_on_action_id;
      action = record action { action_id = some id; target_generation = some generation };
    }

unfoldable pub push_envelope : ℕ → DispatchActionEnvelope → Dispatcher → Dispatcher
push_envelope now e d = append_action_lifecycle_event now e queued none (
    add_action_key e.action (record d {
      dispatch_queue = d.dispatch_queue ++ e ∷ [];
      action_by_id = set e.action_id e d.action_by_id;
    }))

abbrev pub count_id : NodeDispatchAction → Dispatcher → Dispatcher
count_id action d = record d {
  next_action_sequence =
      if defined action.action_id then d.next_action_sequence else suc d.next_action_sequence;
}

unfoldable pub accept : ℕ → DispatchActionEnvelope → Dispatcher → Dispatcher
accept now e d =
    if any (same_action_key e.action) d.queued_action_keys
    then drop_action e.action duplicate_action d
    else drain_dispatch_queue now (push_envelope now e d)

unfoldable pub dispatch_action :
    (String → Option ℕ) → ℕ → String → NodeDispatchAction → Dispatcher → Dispatcher
dispatch_action context_pct now new_id action d =
    if is_resume action.type
      && not (resume_allowed context_pct d.status (get action.member_id d.members))
    then drop_action action resume_not_allowed d
    else if leb 5 (queued_for action.member_id d.dispatch_queue)
    then drop_action action member_queue_full d
    else accept now (envelope_of new_id action d) (count_id action d)

abbrev pub is_final : Option ActionLifecycleState → Bool
is_final (some failed) = true
is_final (some completed) = true
is_final (some superseded) = true
is_final _ = false

-- The end of `dispatchAction`, after the drain that it waits for.
unfoldable pub dispatch_end : DispatchActionEnvelope → Dispatcher → Dispatcher
dispatch_end e d =
    if is_final (get e.action_id d.action_lifecycle) then delete_action_key e.action d else d
