-- ===== src/Node/Examples.antt =====
-- The dispatch of a node at concrete actions (src/specialist/node-supervisor.ts).
mod Rounds
use unit_ai_specialists.Common.{
  ℕ, ◌≤◌, sym, subst, Bool, true, false, ◌≡◌, ◌≢◌, ◌↔◌, refl, Option, none, some, List, [], ◌∷◌,
  ◌++◌, String, Memᴰ,
}
use unit_ai_specialists.Common.Dict.{get, set}
use unit_ai_specialists.Node.States.{NodeState, same_state}
use unit_ai_specialists.Node.Members.{NodeMemberEntry}
use unit_ai_specialists.Node.Actions.{
  ActionType, resume, steer, ActionLifecycleState, queued, written, observed, completed,
  NodeDispatchAction, DispatchActionEnvelope, ActionEvent, lifecycle, Dispatcher, queued_for,
  unfinished, includes, add_action_key, append_action_lifecycle_event, same_action_key,
  delete_action_key, set_pending, is_recovery_resume_allowed,
}
use unit_ai_specialists.Node.Actions.Drain.{
  Verdict, handed, judge, settle, drain_dispatch_queue, drain_loop, hand_over, rest_idle, refuse,
  judge_member, judge_id, judge_job, call_for, settle_sent, record_outcome,
}
use unit_ai_specialists.Node.Actions.Dispatch.{dispatch_action, envelope_of, accept, push_envelope}
use unit_ai_specialists.Node.Actions.Acknowledge.{
  maybe_acknowledge_member_action, acknowledge_member, acknowledge_pending, complete,
}
use unit_ai_specialists.Node.Actions.Runs.{
  Reach, begins, drains, dispatches, settles, acknowledges, fresh,
}
use unit_ai_specialists.Node.Actions.Bounds.{queue_bounded, room_for}
use unit_ai_specialists.Node.Actions.Queues.{in_queue}
use unit_ai_specialists.Node.Actions.Boot.{anew}
use unit_ai_specialists.Node.Actions.Handing.{sent_alone}
use unit_ai_specialists.Node.Actions.Recovery.{
  recover, replay, replay_event, replay_restored, restore_action, replay_state, reopen, reopen_all,
}
use unit_ai_specialists.Node.Actions.Recovery.Laws.{recovered_queue}
use unit_ai_specialists.Node.Actions.Recovery.Stuck.{observed_blocks}

abbrev pub alpha : NodeMemberEntry
alpha = record {
  member_id = "alpha";
  job_id = some "j1";
  specialist = "explorer";
  model = none;
  role = none;
  status = "waiting";
  enabled = true;
  last_seen_output_hash = none;
  generation = 1;
  worktree_path = none;
  parent_member_id = none;
  replaced_member_id = none;
  phase_id = none;
}

abbrev pub started : Dispatcher
started = fresh NodeState.running (("alpha", alpha) ∷ []) ("alpha" ∷ []) 0

abbrev action : ActionType → NodeDispatchAction
action type = record {
  type = type;
  member_id = "alpha";
  task = none;
  message = some "look again";
  action_id = none;
  target_generation = none;
  depends_on_action_id = none;
}

abbrev ready : Dispatcher
ready = drain_dispatch_queue 5 started

-- The first action is sent, and the second is queued while the first is being sent.
abbrev sent_one : Dispatcher
sent_one = dispatch_action (λ _. none) 10 "n:10:1" (action steer) ready

abbrev sent_two : Dispatcher
sent_two = dispatch_action (λ _. none) 11 "n:11:2" (action resume) sent_one

-- The first is written and completed before the second comes.
abbrev after_one : Dispatcher
after_one = maybe_acknowledge_member_action 13 "alpha" (settle 12 none sent_one)

abbrev sent_next : Dispatcher
sent_next = dispatch_action (λ _. none) 14 "n:14:2" (action resume) after_one

one_reached : Reach started sent_one
one_reached = dispatches (λ _. none) 10 "n:10:1" (action steer) refl refl (drains 5 begins)

two_reached : Reach started sent_two
two_reached = dispatches (λ _. none) 11 "n:11:2" (action resume) refl refl one_reached

next_reached : Reach started sent_next
next_reached =
    dispatches (λ _. none) 14 "n:14:2" (action resume) refl refl
      (acknowledges 13 "alpha" (settles 12 none one_reached))

abbrev first : DispatchActionEnvelope
first = record {
  action_id = "n:10:1";
  target_generation = 1;
  depends_on_action_id = none;
  action = record (action steer) { action_id = some "n:10:1"; target_generation = some 1 };
}

abbrev second : DispatchActionEnvelope
second = record {
  action_id = "n:14:2";
  target_generation = 1;
  depends_on_action_id = none;
  action = record (action resume) { action_id = some "n:14:2"; target_generation = some 1 };
}

next_sent :
    (sent_next.sending ≡ some second)
    × (sent_next.log
        ≡ lifecycle first queued none
          ∷ lifecycle first written none
          ∷ lifecycle first observed none
          ∷ lifecycle first completed none
          ∷ lifecycle second queued none
          ∷ [])
unfolding dispatch_action queued_for fresh get envelope_of accept push_envelope add_action_key set
    append_action_lifecycle_event same_action_key drain_dispatch_queue drain_loop hand_over judge
    is_recovery_resume_allowed call_for same_state settle settle_sent record_outcome refuse
    rest_idle delete_action_key set_pending maybe_acknowledge_member_action acknowledge_member
    acknowledge_pending complete
next_sent = (refl, refl)

first_written : Memᴰ (lifecycle first written none) sent_next.log
first_written =
    subst (λ log. Memᴰ (lifecycle first written none) log) (sym next_sent.1)
      (Memᴰ.tail (Memᴰ.head refl))

queue_bounded_example :
    queued_for "alpha" sent_two.dispatch_queue
    ≤ room_for (queued_for "alpha" started.dispatch_queue)
queue_bounded_example = queue_bounded started sent_two "alpha" two_reached

sent_alone_example :
    (includes "n:10:1" sent_next.completed_action_ids ≡ true)
    × (unfinished
          (sent_next.member_pending_action second.action.member_id second.target_generation)
          sent_next.completed_action_ids
        ≡ false)
sent_alone_example =
    sent_alone started sent_next second first
      (anew NodeState.running (("alpha", alpha) ∷ []) ("alpha" ∷ []) 0) next_reached next_sent.0
      first_written refl refl refl

abbrev again : Dispatcher
again = recover sent_two.log (fresh NodeState.waiting [] [] 20)

recovered_queue_example :
    (in_queue "n:11:2" again.dispatch_queue ≡ true)
    ↔ (get "n:11:2" sent_two.action_lifecycle ≡ some queued)
recovered_queue_example =
    recovered_queue NodeState.waiting [] [] 20 NodeState.running (("alpha", alpha) ∷ [])
      ("alpha" ∷ []) 0 sent_two "n:11:2" two_reached

-- The log of a process that stopped after `action_observed`, read by the next process.
abbrev next_one : DispatchActionEnvelope
next_one = record first { action_id = "n:30:1" }

abbrev stuck : Dispatcher
stuck =
    recover
      (lifecycle first queued none
        ∷ lifecycle first written none
        ∷ lifecycle first observed none
        ∷ [])
      started

stuck_pending :
    (get "alpha" stuck.members ≡ some alpha)
    × (stuck.member_pending_action "alpha" 1 ≡ some "n:10:1")
    × (get "n:10:1" stuck.action_lifecycle ≡ some observed)
    × (unfinished (some "n:10:1") stuck.completed_action_ids ≡ true)
unfolding recover fresh get set restore_action
stuck_pending = (refl, refl, refl, refl)

observed_blocks_example :
    (maybe_acknowledge_member_action 31 "alpha" stuck ≡ stuck)
    × (judge stuck next_one ≢ handed "j1")
observed_blocks_example =
    observed_blocks 31 "alpha" "n:10:1" alpha stuck next_one "j1" stuck_pending.0 stuck_pending.1
      stuck_pending.2 stuck_pending.3 refl
