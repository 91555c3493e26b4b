-- ===== src/Activation/PendingStore/Views.antt =====
-- The listings of src/activation/transport/pending-store.ts, and the projection and the wait of
-- src/activation/transport/polling.ts. A directory lists its files in the order of the map.
pub mod Waiting
use unit_ai_specialists.Common.{
  ℕ, ◌≡◌, refl, sym, ap, ◌∙◌, Bool, true, false, not, ◌&&◌, Option, none, some, List, [], ◌∷◌, ◌++◌,
  map, String, defined, filter, length, if◌then◌else◌, arith, str_eq, eq_iff, Memᴰ,
  Memᴰ-append_left, Memᴰ-append_right, inl, inr, Bool-cases, Option-cases,
}
use unit_ai_specialists.Common.Dict.{Dict, get}
use unit_ai_specialists.Common.Sorting.{sort_by, SortedBy, SortedBy-sort_by, Memᴰ-sort_by}
use unit_ai_specialists.Activation.Interaction.{InteractionKind, DeliveryState}
use unit_ai_specialists.Activation.PendingStore.{
  PendingInteraction, InteractionReply, Stored, corrupt, stored, Store, directory, read_reply,
  project_delivery_state, creates_pending_ask, WireDeliveryState, DeliveryAttempt, WireDelivery,
}

pub record PendingInteractionView : Type 0 where
  pub record_ : PendingInteraction
  pub reply : Option InteractionReply

views_of : Store → String → Dict (Stored PendingInteraction) → List PendingInteractionView
views_of s activation [] = []
views_of s activation ((name, corrupt) ∷ files) = views_of s activation files
views_of s activation ((name, stored r) ∷ files) =
    record { record_ = r; reply = read_reply s activation r.message_id }
    ∷ views_of s activation files

abbrev pub created : PendingInteractionView → ℕ
created v = v.record_.created_at_ms

unfoldable pub list_for_activation : Store → String → List PendingInteractionView
unfolding views_of
list_for_activation s activation =
    sort_by created (views_of s activation (directory (get activation s.records)))

list_from : Store → Dict (Dict (Stored PendingInteraction)) → List PendingInteractionView
unfolding list_for_activation
list_from s [] = []
list_from s ((activation, files) ∷ rest) = list_for_activation s activation ++ list_from s rest

unfoldable pub list_all : Store → List PendingInteractionView
unfolding list_from
list_all s = sort_by created (list_from s s.records)

pub record PendingInteractionProjection : Type 0 where
  pub activation_id : String
  pub message_id : String
  pub kind : InteractionKind
  pub delivery : DeliveryState
  pub wire_delivery : WireDeliveryState
  pub created_at_ms : ℕ
  pub send_attempts : ℕ
  pub answered : Bool
  pub awaiting_reply : Bool
  pub body : String

unfoldable pub project : PendingInteractionView → PendingInteractionProjection
unfolding project_delivery_state
project v = record {
  activation_id = v.record_.activation_id;
  message_id = v.record_.message_id;
  kind = v.record_.kind;
  delivery = project_delivery_state v.record_.delivery.state;
  wire_delivery = v.record_.delivery.state;
  created_at_ms = v.record_.created_at_ms;
  send_attempts = length v.record_.delivery.attempts;
  answered = defined v.reply;
  awaiting_reply = creates_pending_ask v.record_.kind && not (defined v.reply);
  body = v.record_.message.body;
}

unfoldable pub project_interactions_for_status : Store → List PendingInteractionProjection
unfolding project
project_interactions_for_status s = map project (list_all s)

unfoldable pub project_outstanding_asks : Store → List PendingInteractionProjection
project_outstanding_asks s = filter (λ p. p.awaiting_reply) (project_interactions_for_status s)

views_of-Memᴰ :
    (s : Store) (activation message : String) (r : PendingInteraction)
    (files : Dict (Stored PendingInteraction))
    → get message files ≡ some (stored r)
    → Memᴰ
        (record { record_ = r; reply = read_reply s activation r.message_id })
        (views_of s activation files)
unfolding views_of get
views_of-Memᴰ s activation message r [] e = absurd (cc)
views_of-Memᴰ s activation message r ((name, corrupt) ∷ files) e =
    views_of-Memᴰ s activation message r files (ground (arith, e))
views_of-Memᴰ s activation message r ((name, stored q) ∷ files) e =
    elim (Bool-cases (str_eq name message)) [
      | inl n ↦ let same : r ≡ q = ground (arith, n) in Memᴰ.head (rw same refl)
      | inr n ↦ Memᴰ.tail (views_of-Memᴰ s activation message r files (ground (arith, n)))
    ]

list_from-Memᴰ :
    (s : Store) (activation message : String) (files : Dict (Stored PendingInteraction))
    (r : PendingInteraction) (all : Dict (Dict (Stored PendingInteraction)))
    → get activation s.records ≡ some files
    → get activation all ≡ some files
    → get message files ≡ some (stored r)
    → Memᴰ (record { record_ = r; reply = read_reply s activation r.message_id }) (list_from s all)
unfolding list_from get
list_from-Memᴰ s activation message files r [] full e f = absurd (cc)
list_from-Memᴰ s activation message files r ((name, d) ∷ all) full e f =
    elim (Bool-cases (str_eq name activation)) [
      | inl n ↦
          let here : name ≡ activation = (eq_iff name activation).0 n in
          Memᴰ-append_left (list_from s all) (
            rw (here, full)
              (Memᴰ-sort_by created _ _ (views_of-Memᴰ s activation message r files f)))
      | inr n ↦
          Memᴰ-append_right (list_for_activation s name)
            (list_from-Memᴰ s activation message files r all full (ground (arith, n)) f)
    ]

-- Every stored record is listed, with its reply, and the list is in the order of creation.
pub list_all-lists :
    (s : Store) (activation message : String) (files : Dict (Stored PendingInteraction))
    (r : PendingInteraction)
    → get activation s.records ≡ some files
    → get message files ≡ some (stored r)
    → SortedBy created (list_all s)
      × Memᴰ (record { record_ = r; reply = read_reply s activation r.message_id }) (list_all s)
unfolding list_all
list_all-lists s activation message files r e f = (
  SortedBy-sort_by created (list_from s s.records),
  Memᴰ-sort_by created _ _ (list_from-Memᴰ s activation message files r s.records e e f),
)
