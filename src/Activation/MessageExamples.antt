-- ===== src/Activation/MessageExamples.antt =====
-- Runs of the transport of messages at concrete inputs (src/activation/interaction.ts).
use unit_ai_specialists.Common.{◌≡◌, refl, none, some, []}
use unit_ai_specialists.Common.Dict.{get, set}
use unit_ai_specialists.Activation.Interaction.{
  DeliveryState, InteractionMessage, question, reply, PendingAsk, SendInput, Transport, replied,
  send_begin, request_begin, reply_step, compose_interaction_message, answer,
}
use unit_ai_specialists.Activation.Interaction.Served.{
  Reach, here, next, replies, Served, request-Served,
}
use unit_ai_specialists.Activation.Interaction.Kept.{Kept, ask-Kept}

abbrev fresh : Transport
fresh = record { pending = []; waiters = []; answered = []; log = []; settled = [] }

abbrev ask : SendInput
ask = record {
  kind = question;
  from = "act:a";
  to = "coordinator";
  activation_id = "act:a";
  attempt_id = "att:1";
  pi_session_id = none;
  body = "which branch?";
  in_reply_to = none;
}

abbrev told : SendInput
told = record {
  kind = reply;
  from = "coordinator";
  to = "act:a";
  activation_id = "act:a";
  attempt_id = "att:1";
  pi_session_id = none;
  body = "main";
  in_reply_to = some "m1";
}

abbrev reply_message : InteractionMessage
reply_message = compose_interaction_message told "m2" 20

abbrev asked_state : Transport
asked_state = (request_begin ask "m1" 10 fresh).1

abbrev answered_state : Transport
answered_state = answer "m1" reply_message asked_state

accepted : reply_step told "m2" 20 asked_state ≡ replied reply_message answered_state
unfolding reply_step request_begin send_begin compose_interaction_message get set
accepted = refl

-- The answer comes while the send of the request still waits for its delivery.
early : Reach asked_state answered_state
early =
    next here
      (replies told "m2" "m1" 20 asked_state answered_state reply_message refl refl accepted)

request-Served_example : Served "m1" answered_state
unfolding get
request-Served_example = request-Served ask "m1" 10 fresh (refl, refl, refl, refl) early

abbrev sent_state : Transport
sent_state = (send_begin ask "m1" 10 fresh).1

ask-Kept_example : Kept "m1" sent_state
ask-Kept_example = ask-Kept ask "m1" 10 fresh refl here

abbrev message : InteractionMessage
message = (send_begin ask "m1" 10 fresh).0

abbrev waiting : PendingAsk
waiting = record { message = message; delivery = DeliveryState.pending; asked_at = 10 }

stands : get "m1" sent_state.pending ≡ some waiting
unfolding send_begin compose_interaction_message get set
stands = refl

named : message.message_id ≡ "m1"
unfolding send_begin compose_interaction_message
named = refl

stands_by_id : get message.message_id sent_state.pending ≡ some waiting
stands_by_id = rw named stands
