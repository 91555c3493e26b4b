-- ===== src/Node/Actions/Waiting.antt =====
-- What becomes of an action that was queued, in every interleaving.
use unit_ai_specialists.Common.{true, false, ◌||◌, ◌≡◌, Option, none, some, List, [], String}
use unit_ai_specialists.Common.Dict.{get}
use unit_ai_specialists.Node.Actions.{queued, DispatchActionEnvelope, Dispatcher}
use unit_ai_specialists.Node.Actions.Queues.{in_queue, is_sent}

abbrev Waits : List DispatchActionEnvelope → Option DispatchActionEnvelope → Dispatcher → Type 0
Waits queue sent d =
    (id : String)
    → get id d.action_lifecycle ≡ some queued
    → (in_queue id queue || is_sent id sent) ≡ true

-- Nothing waits outside the queue and the action being sent, and an idle dispatch has neither.
pub record Settled (d : Dispatcher) : Type 0 where
  pub waits : Waits d.dispatch_queue d.sending d
  pub idle : d.is_draining ≡ false → (d.dispatch_queue ≡ []) × (d.sending ≡ none)
