-- ===== src/Activation/Interaction.antt =====
-- src/activation/interaction.ts: the transport of messages between participants. An asynchronous
-- method is split where it awaits: other calls run between its parts. The promise that `request`
-- returns is the entry of `settled`, which the waiter fills.
pub mod Steps
pub mod Queries
pub mod Served
pub mod Kept
use unit_ai_specialists.Common.{
  ℕ, ◌==◌, Bool, true, false, not, ◌≡◌, ◌&&◌, ◌||◌, Option, none, some, List, [], ◌∷◌, ◌++◌, map,
  String, str_eq, truthy, any, filter, length, if◌then◌else◌,
}
use unit_ai_specialists.Common.Dict.{Dict, get, set, delete, has}

pub data InteractionKind : Type 0 where
  question escalation finding completion reply instruction : InteractionKind

pub data DeliveryState : Type 0 where
  pending delivered refused : DeliveryState

pub record InteractionMessage : Type 0 where
  pub message_id : String
  pub kind : InteractionKind
  pub from : String
  pub to : String
  pub activation_id : String
  pub attempt_id : String
  pub pi_session_id : Option String
  pub in_reply_to : Option String
  pub body : String
  pub created_at : ℕ

pub record PendingAsk : Type 0 where
  pub message : InteractionMessage
  pub delivery : DeliveryState
  pub asked_at : ℕ

pub record SendInput : Type 0 where
  pub kind : InteractionKind
  pub from : String
  pub to : String
  pub activation_id : String
  pub attempt_id : String
  pub pi_session_id : Option String
  pub body : String
  pub in_reply_to : Option String

pub record Transport : Type 0 where
  pub pending : Dict PendingAsk
  pub waiters : Dict (Unit {0})
  pub answered : Dict InteractionMessage
  pub log : List InteractionMessage
  pub settled : Dict InteractionMessage

-- What the delivery hook did: there is none, it threw, or it returned.
pub data Delivery : Type 0 where
  no_hook threw : Delivery
  gave : Bool → Delivery

-- `...(x ? { x } : {})`.
abbrev keep_truthy : Option String → Option String
keep_truthy o = if truthy o then o else none

unfoldable pub compose_interaction_message : SendInput → String → ℕ → InteractionMessage
compose_interaction_message input id now = record {
  message_id = id;
  kind = input.kind;
  from = input.from;
  to = input.to;
  activation_id = input.activation_id;
  attempt_id = input.attempt_id;
  pi_session_id = keep_truthy input.pi_session_id;
  in_reply_to = keep_truthy input.in_reply_to;
  body = input.body;
  created_at = now;
}

abbrev pub expects_answer : InteractionKind → Bool
expects_answer question = true
expects_answer escalation = true
expects_answer _ = false

abbrev pub is_reply : InteractionKind → Bool
is_reply reply = true
is_reply _ = false

abbrev pub attempt_delivery : Delivery → Bool
attempt_delivery no_hook = false
attempt_delivery threw = false
attempt_delivery (gave b) = b

-- `send` up to its await, for any kind but a reply.
unfoldable pub send_begin : SendInput → String → ℕ → Transport → InteractionMessage × Transport
unfolding compose_interaction_message
send_begin input id now s =
    let m = compose_interaction_message input id now in
    let logged : Transport = record s { log = s.log ++ m ∷ [] } in
    (
      m,
      if expects_answer m.kind
          then record logged {
            pending =
                set m.message_id
                  (record { message = m; delivery = pending; asked_at = m.created_at }) s.pending;
          }
          else logged,
    )

mark_delivery : String → Bool → Option PendingAsk → Dict PendingAsk → Dict PendingAsk
mark_delivery id ok none asks = asks
mark_delivery id ok (some ask) asks =
    set id (record ask { delivery = if ok then delivered else pending }) asks

-- `send` from its await on.
unfoldable pub send_finish : InteractionMessage → Delivery → Transport → Transport
unfolding mark_delivery
send_finish m d s = record s {
  pending = mark_delivery m.message_id (attempt_delivery d) (get m.message_id s.pending) s.pending;
}

pub data ReplyResult : Type 0 where
  uncorrelated : Option String → ReplyResult
  replied : InteractionMessage → Transport → ReplyResult

pub answer : String → InteractionMessage → Transport → Transport
answer target m s = record s {
  log = s.log ++ m ∷ [];
  pending = delete target s.pending;
  waiters = delete target s.waiters;
  settled = if has target s.waiters then set target m s.settled else s.settled;
  answered = set target m s.answered;
}

pub reply_to : SendInput → String → ℕ → Transport → Option String → ReplyResult
unfolding answer compose_interaction_message
reply_to input id now s none = uncorrelated none
reply_to input id now s (some target) =
    if not (truthy (some target)) || not (has target s.pending)
    then uncorrelated (some target)
    else let m = compose_interaction_message input id now in replied m (answer target m s)

-- `reply` up to its await; what the delivery says is not looked at.
unfoldable pub reply_step : SendInput → String → ℕ → Transport → ReplyResult
unfolding reply_to
reply_step input id now s = reply_to input id now s input.in_reply_to

-- `request` up to the await of its send: the waiter stands before the message is sent.
unfoldable pub request_begin : SendInput → String → ℕ → Transport → InteractionMessage × Transport
unfolding send_begin
request_begin input id now s =
    send_begin (record input { in_reply_to = none }) id now
      (record s { waiters = set id tt s.waiters })

take_early : String → Option InteractionMessage → Transport → Option InteractionMessage × Transport
take_early id none s = (none, s)
take_early id (some early) s =
    (some early, record s { waiters = delete id s.waiters; answered = delete id s.answered })

-- `request` from there on: an early reply, or the promise.
unfoldable pub request_finish :
    InteractionMessage → Delivery → Transport → Option InteractionMessage × Transport
unfolding send_finish take_early
request_finish m d s =
    let sent = send_finish m d s in take_early m.message_id (get m.message_id sent.answered) sent
