-- ===== src/Node/States.antt =====
-- The states of a node and the table of its transitions (src/specialist/node-contract.ts), with the
-- statuses at which the loop of src/specialist/node-supervisor.ts stops.
use unit_ai_specialists.Common.{ℕ, ◌==◌, Bool, true, false, List, [], ◌∷◌, any}

pub data NodeState : Type 0 where
  created starting running waiting degraded awaiting_merge fixing_after_review failed error done
        stopped :
      NodeState

unfoldable pub valid_state_transitions : NodeState → List NodeState
valid_state_transitions created = starting ∷ stopped ∷ []
valid_state_transitions starting = running ∷ error ∷ stopped ∷ []
valid_state_transitions running =
    waiting ∷ degraded ∷ awaiting_merge ∷ done ∷ error ∷ stopped ∷ failed ∷ []
valid_state_transitions waiting =
    running ∷ degraded ∷ awaiting_merge ∷ done ∷ error ∷ stopped ∷ failed ∷ []
valid_state_transitions degraded = running ∷ fixing_after_review ∷ failed ∷ error ∷ stopped ∷ []
valid_state_transitions awaiting_merge = done ∷ fixing_after_review ∷ failed ∷ error ∷ stopped ∷ []
valid_state_transitions fixing_after_review =
    awaiting_merge ∷ running ∷ failed ∷ error ∷ stopped ∷ []
valid_state_transitions failed = []
valid_state_transitions error = []
valid_state_transitions done = []
valid_state_transitions stopped = []

abbrev index : NodeState → ℕ
index created = 0
index starting = 1
index running = 2
index waiting = 3
index degraded = 4
index awaiting_merge = 5
index fixing_after_review = 6
index failed = 7
index error = 8
index done = 9
index stopped = 10

unfoldable pub same_state : NodeState → NodeState → Bool
same_state a b = index a == index b

-- `VALID_TRANSITIONS[from].includes(to)`.
unfoldable pub can_transition : NodeState → NodeState → Bool
unfolding same_state
can_transition from to = any (same_state to) (valid_state_transitions from)

unfoldable pub is_terminal_node_status : NodeState → Bool
is_terminal_node_status error = true
is_terminal_node_status done = true
is_terminal_node_status stopped = true
is_terminal_node_status failed = true
is_terminal_node_status awaiting_merge = true
is_terminal_node_status _ = false
