-- ===== src/Activation/PendingStore.antt =====
-- src/activation/transport/pending-store.ts: the durable records of interactions. A directory for
-- each activation holds a file for each message, and a file for its reply; the ids hold no "/", and
-- no message id ends in ".reply".
pub mod Delivery
pub mod Views
use unit_ai_specialists.Common.{
  ℕ, Bool, true, false, not, ◌≡◌, ◌&&◌, Option, none, some, List, [], ◌∷◌, ◌++◌, String, str_eq,
  is_text, defined, if◌then◌else◌,
}
use unit_ai_specialists.Common.Dict.{Dict, get, set}
use unit_ai_specialists.Activation.Interaction.{
  InteractionKind, InteractionMessage, expects_answer, DeliveryState,
}

pub data WireDeliveryState : Type 0 where
  pending sent_unconfirmed delivered refused undeliverable : WireDeliveryState

unfoldable pub project_delivery_state : WireDeliveryState → DeliveryState
project_delivery_state delivered = DeliveryState.delivered
project_delivery_state refused = DeliveryState.refused
project_delivery_state _ = DeliveryState.pending

-- `createsPendingAsk` and `isConfirmable` are the same test of the kind.
abbrev pub creates_pending_ask : InteractionKind → Bool
creates_pending_ask kind = expects_answer kind

abbrev pub is_confirmable : InteractionKind → Bool
is_confirmable kind = creates_pending_ask kind

pub data AttemptOutcome : Type 0 where
  sent_unconfirmed refused undeliverable : AttemptOutcome

pub record DeliveryAttempt : Type 0 where
  pub at_ms : ℕ
  pub route : String
  pub outcome : AttemptOutcome
  pub detail : Option String

pub record WireDelivery : Type 0 where
  pub state : WireDeliveryState
  pub attempts : List DeliveryAttempt
  pub receipt_msg_id : Option String
  pub delivered_at_ms : Option ℕ

pub record PendingInteraction : Type 0 where
  pub message_id : String
  pub activation_id : String
  pub kind : InteractionKind
  pub created_at_ms : ℕ
  pub message : InteractionMessage
  pub delivery : WireDelivery

pub record InteractionReply : Type 0 where
  pub message_id : String
  pub activation_id : String
  pub replied_at_ms : ℕ
  pub body : InteractionMessage

-- A file that does not parse reads as undefined, but it exists.
pub data Stored (A : Type 0) : Type 0 where
  corrupt : Stored A
  stored : A → Stored A

pub record Store : Type 0 where
  pub records : Dict (Dict (Stored PendingInteraction))
  pub replies : Dict (Dict (Stored InteractionReply))

module _ {A : Type 0} where
  abbrev pub directory : Option (Dict (Stored A)) → Dict (Stored A)
  directory none = []
  directory (some d) = d

  abbrev pub file_at : String → String → Dict (Dict (Stored A)) → Option (Stored A)
  file_at activation message files = get message (directory (get activation files))

  -- `mkdir` and the atomic write.
  abbrev pub write_at : String → String → A → Dict (Dict (Stored A)) → Dict (Dict (Stored A))
  write_at activation message a files =
      set activation (set message (stored a) (directory (get activation files))) files

  -- `readJson`.
  abbrev pub parsed : Option (Stored A) → Option A
  parsed none = none
  parsed (some corrupt) = none
  parsed (some (stored a)) = some a

unfoldable pub read : Store → String → String → Option PendingInteraction
read s activation message = parsed (file_at activation message s.records)

unfoldable pub read_reply : Store → String → String → Option InteractionReply
read_reply s activation message = parsed (file_at activation message s.replies)

pub data StoreError : Type 0 where
  already_exists no_record mismatch : StoreError

pub data Result (A : Type 0) : Type 0 where
  ok : A → Store → Result A
  err : StoreError → Result A

pub record CreateInput : Type 0 where
  pub message_id : String
  pub activation_id : String
  pub kind : InteractionKind
  pub message : InteractionMessage
  pub created_at_ms : Option ℕ

abbrev or_now : Option ℕ → ℕ → ℕ
or_now none now = now
or_now (some t) now = t

unfoldable pub create : Store → CreateInput → ℕ → Result PendingInteraction
create s input now =
    let r : PendingInteraction = record {
      message_id = input.message_id;
      activation_id = input.activation_id;
      kind = input.kind;
      created_at_ms = or_now input.created_at_ms now;
      message = input.message;
      delivery = record {
        state = pending;
        attempts = [];
        receipt_msg_id = none;
        delivered_at_ms = none;
      };
    } in
    if defined (file_at input.activation_id input.message_id s.records)
    then err already_exists
    else ok r (record s { records = write_at input.activation_id input.message_id r s.records })

abbrev wire_of : AttemptOutcome → WireDeliveryState
wire_of AttemptOutcome.sent_unconfirmed = WireDeliveryState.sent_unconfirmed
wire_of AttemptOutcome.refused = WireDeliveryState.refused
wire_of AttemptOutcome.undeliverable = WireDeliveryState.undeliverable

-- `if (state !== 'delivered') state = outcome`.
abbrev pub after_attempt : WireDeliveryState → AttemptOutcome → WireDeliveryState
after_attempt delivered outcome = delivered
after_attempt _ outcome = wire_of outcome

abbrev pub is_sent_unconfirmed : WireDeliveryState → Bool
is_sent_unconfirmed WireDeliveryState.sent_unconfirmed = true
is_sent_unconfirmed _ = false

module _ (s : Store) (activation message : String) where
  save : PendingInteraction → Result PendingInteraction
  save r = ok r (record s { records = write_at activation message r s.records })

  attempt_on : DeliveryAttempt → Option PendingInteraction → Result PendingInteraction
  unfolding save
  attempt_on a none = err no_record
  attempt_on a (some r) = save (record r {
    delivery = record (r.delivery) {
      attempts = r.delivery.attempts ++ a ∷ [];
      state = after_attempt r.delivery.state a.outcome;
    };
  })

  unfoldable pub record_attempt : DeliveryAttempt → Result PendingInteraction
  unfolding attempt_on read
  record_attempt a = attempt_on a (read s activation message)

  receipt_on : String → Option String → ℕ → Option PendingInteraction → Result PendingInteraction
  unfolding save
  receipt_on orig receipt at none = err no_record
  receipt_on orig receipt at (some r) =
      if not (str_eq orig message)
      then err mismatch
      else save (record r {
        delivery = record (r.delivery) {
          state = delivered;
          receipt_msg_id = receipt;
          delivered_at_ms = some at;
        };
      })

  unfoldable pub record_receipt : String → Option String → ℕ → Result PendingInteraction
  unfolding receipt_on read
  record_receipt orig receipt at = receipt_on orig receipt at (read s activation message)

  unfoldable pub record_reply : InteractionMessage → ℕ → Result InteractionReply
  unfolding read
  record_reply body at =
      let r : InteractionReply = record {
        message_id = message;
        activation_id = activation;
        replied_at_ms = at;
        body = body;
      } in
      if not (defined (read s activation message))
      then err no_record
      else ok r (record s { replies = write_at activation message r s.replies })

  reply_delivery_on : Option String → ℕ → Option PendingInteraction → Result PendingInteraction
  unfolding save
  reply_delivery_on in_reply_to at none = err no_record
  reply_delivery_on in_reply_to at (some r) =
      if not (is_text in_reply_to message)
      then err mismatch
      else if not (is_confirmable r.kind)
      then ok r s
      else if not (is_sent_unconfirmed r.delivery.state)
      then ok r s
      else save (record r {
        delivery = record (r.delivery) { state = delivered; delivered_at_ms = some at };
      })

  unfoldable pub record_reply_delivery : Option String → ℕ → Result PendingInteraction
  unfolding reply_delivery_on read
  record_reply_delivery in_reply_to at =
      reply_delivery_on in_reply_to at (read s activation message)
