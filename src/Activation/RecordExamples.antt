-- ===== src/Activation/RecordExamples.antt =====
-- Runs of the durable records at concrete inputs (src/activation/transport/pending-store.ts,
-- polling.ts).
use unit_ai_specialists.Common.{ℕ, ◌≡◌, ◌≢◌, refl, false, none, some, [], ◌∷◌, arith}
use unit_ai_specialists.Common.Dict.{Dict, get, set}
use unit_ai_specialists.Activation.Interaction.{InteractionMessage, question}
use unit_ai_specialists.Activation.PendingStore.{
  PendingInteraction, WireDeliveryState, Stored, stored, Store, CreateInput, read, record_receipt,
  ok,
}
use unit_ai_specialists.Activation.PendingStore.Delivery.{Step, receipted}
use unit_ai_specialists.Activation.PendingStore.Delivery.Evidence.{Evidence, delivered-Evidence}
use unit_ai_specialists.Activation.PendingStore.Delivery.Persistence.{
  Persists, here, next, record-Persists,
}
use unit_ai_specialists.Activation.PendingStore.Views.Waiting.{
  Look, await_reply, Explains, await_reply_total,
}

abbrev message : InteractionMessage
message = record {
  message_id = "m1";
  kind = question;
  from = "act:a";
  to = "coordinator";
  activation_id = "act:a";
  attempt_id = "att:1";
  pi_session_id = none;
  in_reply_to = none;
  body = "which branch?";
  created_at = 10;
}

abbrev waiting : PendingInteraction
waiting = record {
  message_id = "m1";
  activation_id = "act:a";
  kind = question;
  created_at_ms = 10;
  message = message;
  delivery = record {
    state = WireDeliveryState.pending;
    attempts = [];
    receipt_msg_id = none;
    delivered_at_ms = none;
  };
}

abbrev confirmed : PendingInteraction
confirmed = record waiting {
  delivery = record {
    state = WireDeliveryState.delivered;
    attempts = [];
    receipt_msg_id = some "w1";
    delivered_at_ms = some 20;
  };
}

abbrev files_with : PendingInteraction → Dict (Stored PendingInteraction)
files_with r = ("m1", stored r) ∷ []

abbrev store_with : PendingInteraction → Store
store_with r = record { records = ("act:a", files_with r) ∷ []; replies = [] }

abbrev input : CreateInput
input = record {
  message_id = "m1";
  activation_id = "act:a";
  kind = question;
  message = message;
  created_at_ms = none;
}

abbrev nothing : Store
nothing = record { records = []; replies = [] }

reads_waiting : read (store_with waiting) "act:a" "m1" ≡ some waiting
unfolding read get
reads_waiting = refl

reads_confirmed : read (store_with confirmed) "act:a" "m1" ≡ some confirmed
unfolding read get
reads_confirmed = refl

receipt_written :
    record_receipt (store_with waiting) "act:a" "m1" "m1" (some "w1") 20
    ≡ ok confirmed (store_with confirmed)
unfolding record_receipt read get set
receipt_written = refl

abbrev step : Step (store_with waiting) (store_with confirmed)
step = receipted "act:a" "m1" "m1" (some "w1") 20 confirmed receipt_written

is_waiting : waiting.delivery.state ≢ WireDeliveryState.delivered
is_waiting h = ground (arith, h)

delivered-Evidence_example :
    Evidence (store_with waiting) (store_with confirmed) "act:a" "m1" waiting
delivered-Evidence_example =
    delivered-Evidence (store_with waiting) (store_with confirmed) waiting confirmed "act:a" "m1"
      reads_waiting reads_confirmed is_waiting refl step

record-Persists_example : Persists waiting (store_with confirmed) "act:a" "m1"
record-Persists_example = record-Persists waiting "act:a" "m1" (next here step) reads_waiting

-- A clock that moves a millisecond a round, and no reply.
abbrev silent : ℕ → Look
silent i = record { reply = none; aborted = false; now = i }

await_reply_total_example : Explains 3 silent 0 (await_reply 3 silent 4 0)
await_reply_total_example = await_reply_total 3 silent (λ i. omega arith) 4 0 (omega arith)
