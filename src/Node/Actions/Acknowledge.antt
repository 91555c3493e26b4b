-- ===== src/Node/Actions/Acknowledge.antt =====
-- `maybeAcknowledgeMemberAction` (src/specialist/node-supervisor.ts).
use unit_ai_specialists.Common.{
  ℕ, Bool, true, false, ◌&&◌, Option, none, some, [], ◌∷◌, ◌++◌, String, truthy, if◌then◌else◌,
}
use unit_ai_specialists.Common.Dict.{get}
use unit_ai_specialists.Node.Members.{NodeMemberEntry}
use unit_ai_specialists.Node.Actions.{
  ActionLifecycleState, DispatchActionEnvelope, Dispatcher, append_action_lifecycle_event,
  completed, includes, observed, set_pending, written,
}

abbrev pub is_written : Option ActionLifecycleState → Bool
is_written (some written) = true
is_written _ = false

unfoldable pub complete :
    ℕ → String → ℕ → String → Option DispatchActionEnvelope → Dispatcher → Dispatcher
complete now m g id none d = d
complete now m g id (some e) d =
    let d' =
      append_action_lifecycle_event now e completed none
        (append_action_lifecycle_event now e observed none d) in
    set_pending m g none (record d' {
      completed_action_ids =
          if includes id d'.completed_action_ids
          then d'.completed_action_ids
          else d'.completed_action_ids ++ id ∷ [];
    })

unfoldable pub acknowledge_pending : ℕ → String → ℕ → Option String → Dispatcher → Dispatcher
acknowledge_pending now m g none d = d
acknowledge_pending now m g (some id) d =
    if truthy (some id) && is_written (get id d.action_lifecycle)
    then complete now m g id (get id d.action_by_id) d
    else d

unfoldable pub acknowledge_member : ℕ → String → Option NodeMemberEntry → Dispatcher → Dispatcher
acknowledge_member now m none d = d
acknowledge_member now m (some member) d =
    acknowledge_pending now m member.generation (d.member_pending_action m member.generation) d

-- `maybeAcknowledgeMemberAction`, which the poll calls when the member has moved.
unfoldable pub maybe_acknowledge_member_action : ℕ → String → Dispatcher → Dispatcher
maybe_acknowledge_member_action now m d = acknowledge_member now m (get m d.members) d
