-- ===== src/Node/Actions/Queues.antt =====
-- Where the envelope of an action stands.
use unit_ai_specialists.Common.{
  Bool, false, ◌||◌, ◌≡◌, Option, none, some, List, [], ◌∷◌, ◌++◌, String, str_eq, any, arith,
}
use unit_ai_specialists.Node.Actions.{DispatchActionEnvelope}

-- The action with this id is the one being sent.
abbrev pub is_sent : String → Option DispatchActionEnvelope → Bool
is_sent id none = false
is_sent id (some e) = str_eq e.action_id id

abbrev pub in_queue : String → List DispatchActionEnvelope → Bool
in_queue id queue = any (λ e. str_eq e.action_id id) queue

pub in_queue-append :
    (id : String) (xs : List DispatchActionEnvelope) (e : DispatchActionEnvelope)
    → in_queue id (xs ++ e ∷ []) ≡ (in_queue id xs || str_eq e.action_id id)
in_queue-append id [] e = ground arith
in_queue-append id (x ∷ xs) e = ground (arith, in_queue-append id xs e)
