-- ===== src/Epic/Lifecycle.antt =====
-- src/specialist/epic-lifecycle.ts: the states of an epic, the table of transitions, and the
-- readiness to merge by live chains.
pub mod Merge
pub mod Paths
use unit_ai_specialists.Common.{
  ℕ, ◌==◌, Bool, true, false, not, ◌≡◌, Option, none, some, List, [], ◌∷◌, map, String, truthy, any,
  filter, length, coalesce, if◌then◌else◌,
}
use unit_ai_specialists.Job.{SupervisorStatus}

pub data EpicState : Type 0 where
  opened resolving merge_ready merged failed abandoned : EpicState

-- The position in `EPIC_STATES`, by which two states are compared.
abbrev pub state_index : EpicState → ℕ
state_index opened = 0
state_index resolving = 1
state_index merge_ready = 2
state_index merged = 3
state_index failed = 4
state_index abandoned = 5

-- `list.includes(state)`.
abbrev pub includes : List EpicState → EpicState → Bool
includes states s = any (λ t. state_index t == state_index s) states

abbrev pub epic_terminal_states : List EpicState
epic_terminal_states = merged ∷ failed ∷ abandoned ∷ []

unfoldable pub valid_epic_transitions : EpicState → List EpicState
valid_epic_transitions opened = resolving ∷ abandoned ∷ []
valid_epic_transitions resolving = merge_ready ∷ failed ∷ abandoned ∷ []
valid_epic_transitions merge_ready = merged ∷ failed ∷ abandoned ∷ resolving ∷ []
valid_epic_transitions merged = []
valid_epic_transitions failed = abandoned ∷ []
valid_epic_transitions abandoned = []

unfoldable pub is_epic_terminal_state : EpicState → Bool
is_epic_terminal_state s = includes epic_terminal_states s

unfoldable pub is_epic_unresolved_state : EpicState → Bool
unfolding is_epic_terminal_state
is_epic_unresolved_state s = not (is_epic_terminal_state s)

unfoldable pub can_transition_epic_state : EpicState → EpicState → Bool
unfolding valid_epic_transitions
can_transition_epic_state from to = includes (valid_epic_transitions from) to

-- `throw new Error('Invalid epic transition: …')` is the left result.
pub data Transition : Type 0 where
  entered : EpicState → Transition
  invalid_transition : (from to : EpicState) → Transition

unfoldable pub transition_epic_state : EpicState → EpicState → Transition
unfolding can_transition_epic_state
transition_epic_state from to =
    if not (can_transition_epic_state from to) then invalid_transition from to else entered to

unfoldable pub resolve_chain_id : SupervisorStatus → Option String
resolve_chain_id s =
    if truthy s.chain_id
    then s.chain_id
    else if truthy s.worktree_owner_job_id
    then s.worktree_owner_job_id
    else if truthy s.worktree_path
    then some s.id
    else none

pub record ChainStatus : Type 0 where
  pub chain_id : String
  pub has_running_job : Bool

pub record EpicReadinessInput : Type 0 where
  pub epic_id : String
  pub epic_status : EpicState
  pub chain_statuses : List ChainStatus

-- The text of the field `summary` is made from this.
pub data MergeSummary : Type 0 where
  blocked_by : List String → MergeSummary
  already_closed live_ready : MergeSummary

pub record EpicReadinessResult : Type 0 where
  pub epic_id : String
  pub epic_status : EpicState
  pub is_ready : Bool
  pub blocking_chains : List String
  pub summary : MergeSummary

abbrev pub is_empty : List String → Bool
is_empty xs = length xs == 0

unfoldable pub evaluate_epic_merge_readiness : EpicReadinessInput → EpicReadinessResult
evaluate_epic_merge_readiness input =
    let blocking = map (λ c. c.chain_id) (filter (λ c. c.has_running_job) input.chain_statuses) in
    let ready = is_empty blocking in
    let result = λ (s : MergeSummary).
      (let r : EpicReadinessResult = record {
        epic_id = input.epic_id;
        epic_status = input.epic_status;
        is_ready = ready;
        blocking_chains = blocking;
        summary = s;
      } in
        r) in
    if not ready
    then result (blocked_by blocking)
    else if includes (merged ∷ abandoned ∷ []) input.epic_status
    then result already_closed
    else result live_ready
