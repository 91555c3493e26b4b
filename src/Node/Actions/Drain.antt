-- ===== src/Node/Actions/Drain.antt =====
-- `drainDispatchQueue` (src/specialist/node-supervisor.ts), split where it waits for a controller.
use unit_ai_specialists.Common.{
  ℕ, ◌==◌, true, false, not, ◌&&◌, Option, none, some, List, [], ◌∷◌, ◌++◌, String, truthy,
  if◌then◌else◌,
}
use unit_ai_specialists.Common.Dict.{get}
use unit_ai_specialists.Node.Members.{NodeMemberEntry}
use unit_ai_specialists.Node.Actions.{
  ActionLifecycleState, ActionType, Call, DispatchActionEnvelope, Dispatcher, NodeDispatchAction,
  Reason, append_action_lifecycle_event, delete_action_key, dependency_not_completed, failed,
  includes, member_generation_mismatch, member_has_pending_action, missing_controller_or_job,
  resume, resume_job, set_pending, steer, steer_job, stop, stop_job, superseded, thrown, unfinished,
  written,
}

-- Why `drainDispatchQueue` does not hand an action over: the state that the action takes and the
-- reason, or the job to hand it to.
pub data Verdict : Type 0 where
  refused : ActionLifecycleState → Reason → Verdict
  handed : String → Verdict

unfoldable pub judge_job : Dispatcher → DispatchActionEnvelope → ℕ → String → Verdict
judge_job d e generation job =
    if not (generation == e.target_generation)
    then refused superseded member_generation_mismatch
    else if truthy e.depends_on_action_id
        && unfinished e.depends_on_action_id d.completed_action_ids
    then refused failed dependency_not_completed
    else if unfinished (d.member_pending_action e.action.member_id generation)
        d.completed_action_ids
    then refused failed member_has_pending_action
    else handed job

unfoldable pub judge_id : Dispatcher → DispatchActionEnvelope → ℕ → Option String → Verdict
unfolding judge_job
judge_id d e generation none = refused failed missing_controller_or_job
judge_id d e generation (some job) =
    if truthy (some job)
    then judge_job d e generation job
    else refused failed missing_controller_or_job

unfoldable pub judge_member : Dispatcher → DispatchActionEnvelope → Option NodeMemberEntry → Verdict
unfolding judge_id
judge_member d e none = refused failed missing_controller_or_job
judge_member d e (some member) = judge_id d e member.generation member.job_id

unfoldable pub judge : Dispatcher → DispatchActionEnvelope → Verdict
unfolding judge_member
judge d e =
    if includes e.action.member_id d.member_controllers
    then judge_member d e (get e.action.member_id d.members)
    else refused failed missing_controller_or_job

abbrev pub or_text : Option String → String → String
or_text none s = s
or_text (some t) s = t

unfoldable pub call_for : String → NodeDispatchAction → ActionType → Call
call_for job action resume = resume_job job (or_text action.task "Continue.")
call_for job action steer = steer_job job (or_text action.message "")
call_for job action stop = stop_job job

unfoldable pub refuse :
    ℕ → DispatchActionEnvelope → ActionLifecycleState → Reason → Dispatcher → Dispatcher
refuse now e state reason d =
    delete_action_key e.action (append_action_lifecycle_event now e state (some reason) d)

unfoldable pub hand_over :
    String → DispatchActionEnvelope → List DispatchActionEnvelope → Dispatcher → Dispatcher
unfolding call_for
hand_over job e rest d = record d {
  dispatch_queue = rest;
  is_draining = true;
  sending = some e;
  calls = d.calls ++ call_for job e.action e.action.type ∷ [];
}

unfoldable pub rest_idle : Dispatcher → Dispatcher
rest_idle d = record d { dispatch_queue = []; is_draining = false; sending = none }

unfoldable pub drain_loop : ℕ → List DispatchActionEnvelope → Dispatcher → Dispatcher
drain_loop now [] d = rest_idle d
drain_loop now (e ∷ rest) d = elim (judge d e) [
  | refused state reason ↦ drain_loop now rest (refuse now e state reason d)
  | handed job ↦ hand_over job e rest d
]

unfoldable pub drain_dispatch_queue : ℕ → Dispatcher → Dispatcher
drain_dispatch_queue now d = if d.is_draining then d else drain_loop now d.dispatch_queue d

-- What follows the answer of the controller; `none` is success and a text what it threw.
unfoldable pub record_outcome : ℕ → Option String → DispatchActionEnvelope → Dispatcher → Dispatcher
record_outcome now none e d = delete_action_key e.action (
    append_action_lifecycle_event now e written none
      (set_pending e.action.member_id e.target_generation (some e.action_id) d))
record_outcome now (some message) e d =
    delete_action_key e.action
      (append_action_lifecycle_event now e failed (some (thrown message)) d)

unfoldable pub settle_sent :
    ℕ → Option String → Option DispatchActionEnvelope → Dispatcher → Dispatcher
settle_sent now outcome none d = d
settle_sent now outcome (some e) d =
    drain_loop now d.dispatch_queue (record_outcome now outcome e d)

unfoldable pub settle : ℕ → Option String → Dispatcher → Dispatcher
settle now outcome d = settle_sent now outcome d.sending d
