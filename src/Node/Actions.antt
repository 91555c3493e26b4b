-- ===== src/Node/Actions.antt =====
-- src/specialist/node-supervisor.ts: the queue of actions that a node hands to its members, one at a
-- time. `drainDispatchQueue` waits for the controller of the member, so it is split there:
-- `drain_loop` runs to the hand-over and `settle` goes on when the controller has answered. What a
-- method reads from the database is an argument, and `log` holds the events that it writes.
pub mod Drain
pub mod Dispatch
pub mod Acknowledge
pub mod Runs
pub mod Queues
pub mod Boot
pub mod Bounds
pub mod Waiting
pub mod Alone
pub mod Owed
pub mod Handing
pub mod Recovery
use unit_ai_specialists.Common.{
  ℕ, suc, leb, ◌==◌, Bool, true, false, not, ◌&&◌, Option, none, some, List, [], ◌∷◌, ◌++◌, String,
  str_eq, truthy, defined, length, filter, any, if◌then◌else◌,
}
use unit_ai_specialists.Common.Dict.{Dict, get, set}
use unit_ai_specialists.Node.States.{NodeState, same_state}
use unit_ai_specialists.Node.Members.{NodeMemberEntry, to_context_health, is_critical}

pub data ActionType : Type 0 where
  resume steer stop : ActionType

pub record NodeDispatchAction : Type 0 where
  pub type : ActionType
  pub member_id : String
  pub task : Option String
  pub message : Option String
  pub action_id : Option String
  pub target_generation : Option ℕ
  pub depends_on_action_id : Option String

pub data ActionLifecycleState : Type 0 where
  queued written observed superseded completed failed : ActionLifecycleState

pub record DispatchActionEnvelope : Type 0 where
  pub action_id : String
  pub target_generation : ℕ
  pub depends_on_action_id : Option String
  pub action : NodeDispatchAction

pub data Reason : Type 0 where
  resume_not_allowed member_queue_full duplicate_action missing_controller_or_job
        member_generation_mismatch dependency_not_completed member_has_pending_action :
      Reason
  thrown : String → Reason

pub data ActionEvent : Type 0 where
  dropped : NodeDispatchAction → Reason → ActionEvent
  lifecycle : DispatchActionEnvelope → ActionLifecycleState → Option Reason → ActionEvent

-- What a controller was asked to do.
pub data Call : Type 0 where
  resume_job steer_job : String → String → Call
  stop_job : String → Call

-- The fields of `NodeSupervisor` that the dispatch uses. `sending` is the action whose controller
-- has not answered yet; `member_pending_action` is keyed by the member and its generation.
pub record Dispatcher : Type 0 where
  pub status : NodeState
  pub members : Dict NodeMemberEntry
  pub member_controllers : List String
  pub dispatch_queue : List DispatchActionEnvelope
  pub queued_action_keys : List NodeDispatchAction
  pub action_lifecycle : Dict ActionLifecycleState
  pub completed_action_ids : List String
  pub member_pending_action : String → ℕ → Option String
  pub action_by_id : Dict DispatchActionEnvelope
  pub next_action_sequence : ℕ
  pub is_draining : Bool
  pub sending : Option DispatchActionEnvelope
  pub last_completed_action_at_ms : ℕ
  pub log : List ActionEvent
  pub calls : List Call

abbrev pub is_resume : ActionType → Bool
is_resume resume = true
is_resume _ = false

abbrev pub kind_index : ActionType → ℕ
kind_index resume = 0
kind_index steer = 1
kind_index stop = 2

abbrev pub same_text : Option String → Option String → Bool
same_text none none = true
same_text (some a) (some b) = str_eq a b
same_text _ _ = false

abbrev pub same_number : Option ℕ → Option ℕ → Bool
same_number none none = true
same_number (some a) (some b) = a == b
same_number _ _ = false

-- `getActionKey(a) === getActionKey(b)`: the fields but the id, which both actions are written in
-- the same order.
unfoldable pub same_action_key : NodeDispatchAction → NodeDispatchAction → Bool
same_action_key a b =
    kind_index a.type == kind_index b.type
    && str_eq a.member_id b.member_id
    && same_text a.task b.task
    && same_text a.message b.message
    && same_number a.target_generation b.target_generation
    && same_text a.depends_on_action_id b.depends_on_action_id

abbrev pub includes : String → List String → Bool
includes id ids = any (str_eq id) ids

unfoldable pub add_action_key : NodeDispatchAction → Dispatcher → Dispatcher
unfolding same_action_key
add_action_key a d = record d {
  queued_action_keys =
      if any (same_action_key a) d.queued_action_keys
      then d.queued_action_keys
      else d.queued_action_keys ++ a ∷ [];
}

unfoldable pub delete_action_key : NodeDispatchAction → Dispatcher → Dispatcher
delete_action_key a d = record d {
  queued_action_keys = filter (λ b. not (same_action_key a b)) d.queued_action_keys;
}

unfoldable pub set_pending : String → ℕ → Option String → Dispatcher → Dispatcher
set_pending m g id d = record d {
  member_pending_action =
      λ m' g'. if str_eq m m' && g == g' then id else d.member_pending_action m' g';
}

abbrev pub is_completed : ActionLifecycleState → Bool
is_completed completed = true
is_completed _ = false

unfoldable pub append_action_lifecycle_event :
    ℕ → DispatchActionEnvelope → ActionLifecycleState → Option Reason → Dispatcher → Dispatcher
append_action_lifecycle_event now e state reason d = record d {
  action_lifecycle = set e.action_id state d.action_lifecycle;
  last_completed_action_at_ms = if is_completed state then now else d.last_completed_action_at_ms;
  log = d.log ++ lifecycle e state reason ∷ [];
}

unfoldable pub drop_action : NodeDispatchAction → Reason → Dispatcher → Dispatcher
drop_action a reason d = record d { log = d.log ++ dropped a reason ∷ [] }

unfoldable pub queued_for : String → List DispatchActionEnvelope → ℕ
queued_for m queue = length (filter (λ e. str_eq e.action.member_id m) queue)

unfoldable pub has_healthy_job : (String → Option ℕ) → Option String → Bool
has_healthy_job context_pct none = false
has_healthy_job context_pct (some job) =
    truthy (some job) && not (is_critical (to_context_health (context_pct job)))

-- `isRecoveryResumeAllowed`; `context_pct` answers `queryMemberContextHealth`.
unfoldable pub is_recovery_resume_allowed : (String → Option ℕ) → NodeState → NodeMemberEntry → Bool
unfolding has_healthy_job
is_recovery_resume_allowed context_pct status member =
    if not (same_state status NodeState.degraded)
    then true
    else member.enabled
      && str_eq member.status "waiting"
      && has_healthy_job context_pct member.job_id

abbrev pub resume_allowed : (String → Option ℕ) → NodeState → Option NodeMemberEntry → Bool
resume_allowed context_pct status none = false
resume_allowed context_pct status (some member) =
    is_recovery_resume_allowed context_pct status member

abbrev pub generation_of : Option NodeMemberEntry → ℕ
generation_of none = 0
generation_of (some member) = member.generation

abbrev pub unfinished : Option String → List String → Bool
unfinished none completed_ids = false
unfinished (some id) completed_ids = truthy (some id) && not (includes id completed_ids)
