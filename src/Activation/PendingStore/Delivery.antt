-- ===== src/Activation/PendingStore/Delivery.antt =====
-- What the durable records keep (src/activation/transport/pending-store.ts).
pub mod Persistence
pub mod Evidence
use mathlib.Core.List.{append-nil}
use unit_ai_specialists.Common.{
  ℕ, ◌≡◌, ◌≢◌, refl, sym, ◌∙◌, ap, subst, ◌↔◌, ◌⊎◌, inl, inr, Bool, true, false, not, ◌&&◌, Option,
  none, some, List, [], ◌∷◌, ◌++◌, String, str_eq, eq_iff, eq_refl, if◌then◌else◌, defined, is_text,
  arith, Bool-cases, Option-cases,
}
use unit_ai_specialists.Common.Dict.{Dict, get, set, get-set}
use unit_ai_specialists.Activation.Interaction.{InteractionMessage, InteractionKind}
use unit_ai_specialists.Activation.PendingStore.{
  WireDeliveryState, delivered, pending, sent_unconfirmed, DeliveryAttempt, AttemptOutcome,
  PendingInteraction, InteractionReply, Stored, corrupt, stored, Store, directory, file_at,
  write_at, parsed, read, read_reply, StoreError, already_exists, Result, ok, err, CreateInput,
  create, record_attempt, record_receipt, record_reply, record_reply_delivery, attempt_on,
  receipt_on, reply_delivery_on, after_attempt, is_confirmable, is_sent_unconfirmed, save,
}

abbrev pub same_file : String → String → String → String → Bool
same_file a m a' m' = str_eq a a' && str_eq m m'

module _ {A : Type 0} (a m a' m' : String) (v : A) (fs : Dict (Dict (Stored A))) where
  -- A write is read back at its own place, and nowhere else.
  file_at-write_at :
      file_at a' m' (write_at a m v fs)
      ≡ (if same_file a m a' m' then some (stored v) else file_at a' m' fs)
  file_at-write_at = elim (Bool-cases (str_eq a a')) [
    | inr e ↦ rw (get-set, e) refl
    | inl e ↦
        let same = (eq_iff a a').0 e in
        elim (Bool-cases (str_eq m m')) [
          | inl f ↦ rw (get-set, e, get-set, f) refl
          | inr f ↦ rw (get-set, e, get-set, f) (rw same refl)
        ]
  ]

module _ (s : Store) (a m a' m' : String) where
  pub read-write_at :
      (r : PendingInteraction)
      → read (record s { records = write_at a m r s.records }) a' m'
        ≡ (if same_file a m a' m' then some r else read s a' m')
  unfolding read
  read-write_at r = elim (Bool-cases (same_file a m a' m')) [
    | inl e ↦ rw (file_at-write_at a m a' m' r s.records, e) refl
    | inr e ↦ rw (file_at-write_at a m a' m' r s.records, e) refl
  ]

read_same :
    (s : Store) (a m a' m' : String) (o r : PendingInteraction)
    → same_file a m a' m' ≡ true
    → read s a m ≡ some o
    → read s a' m' ≡ some r
    → o ≡ r
read_same s a m a' m' o r q was e =
    let here : a ≡ a' = (eq_iff a a').0 (ground (arith, q)) in
    let also : m ≡ m' = (eq_iff m m').0 (ground (arith, q)) in cc (was, e, here, also)

-- How a record may change: its message stays, a delivery once confirmed stays confirmed, and
-- attempts are only added.
pub record Progress (r r' : PendingInteraction) : Type 0 where
  pub message_kept : r'.message ≡ r.message
  pub kind_kept : r'.kind ≡ r.kind
  pub confirmed_kept : r.delivery.state ≡ delivered → r'.delivery.state ≡ delivered
  pub attempts_kept :
      (more : List DeliveryAttempt) × (r'.delivery.attempts ≡ r.delivery.attempts ++ more)

Progress-refl : (r : PendingInteraction) → Progress r r
Progress-refl r = record {
  message_kept = refl;
  kind_kept = refl;
  confirmed_kept = λ h. h;
  attempts_kept = ([], sym (append-nil _));
}

-- One call that wrote, and what it wrote.
pub data Step (s : Store) : Store → Type 0 where
  created :
      {t : Store} (input : CreateInput) (now : ℕ) (r : PendingInteraction)
      → create s input now ≡ ok r t
      → Step s t
  attempted :
      {t : Store} (a m : String) (attempt : DeliveryAttempt) (r : PendingInteraction)
      → record_attempt s a m attempt ≡ ok r t
      → Step s t
  receipted :
      {t : Store} (a m orig : String) (receipt : Option String) (at : ℕ) (r : PendingInteraction)
      → record_receipt s a m orig receipt at ≡ ok r t
      → Step s t
  replied :
      {t : Store} (a m : String) (body : InteractionMessage) (at : ℕ) (r : InteractionReply)
      → record_reply s a m body at ≡ ok r t
      → Step s t
  confirmed :
      {t : Store} (a m : String) (in_reply_to : Option String) (at : ℕ) (r : PendingInteraction)
      → record_reply_delivery s a m in_reply_to at ≡ ok r t
      → Step s t

module _ (s : Store) (a m : String) where
  -- A write over a record that progresses from it.
  save-Progress :
      (o n r : PendingInteraction) (a' m' : String)
      → read s a m ≡ some o
      → Progress o n
      → read s a' m' ≡ some r
      → (r' : PendingInteraction) × (read (record s { records = write_at a m n s.records }) a' m'
          ≡ some r')
        × Progress r r'
  save-Progress o n r a' m' was p e = elim (Bool-cases (same_file a m a' m')) [
    | inl q ↦
        let same_o : o ≡ r = read_same s a m a' m' o r q was e in
        (n, rw (read-write_at s a m a' m' n, q) refl, subst (λ x. Progress x n) same_o p)
    | inr q ↦ (r, rw (read-write_at s a m a' m' n, q) e, Progress-refl r)
  ]

  abbrev written : PendingInteraction → Store
  written n = record s { records = write_at a m n s.records }

  attempt_inv :
      (x : DeliveryAttempt) (q : Option PendingInteraction) (r : PendingInteraction) (t : Store)
      → attempt_on s a m x q ≡ ok r t
      → (o : PendingInteraction) × (q ≡ some o)
        × (t ≡ written r)
        × Progress o r
        × (r.delivery.state ≡ delivered → o.delivery.state ≡ delivered)
  unfolding attempt_on
  attempt_inv x none r t h = absurd (ground arith)
  attempt_inv x (some o) r t h =
      let made : r ≡ record o {
        delivery = record (o.delivery) {
          attempts = o.delivery.attempts ++ x ∷ [];
          state = after_attempt o.delivery.state x.outcome;
        };
      } =
        ground arith in
      (
        o,
        refl,
        ground arith,
        rw made (record {
          message_kept = refl;
          kind_kept = refl;
          confirmed_kept = λ c. rw c refl;
          attempts_kept = (x ∷ [], refl);
        }),
        rw made (ground arith),
      )

  receipt_inv :
      (orig : String) (receipt : Option String) (at : ℕ) (q : Option PendingInteraction)
      (r : PendingInteraction) (t : Store)
      → receipt_on s a m orig receipt at q ≡ ok r t
      → (o : PendingInteraction) × (q ≡ some o) × (t ≡ written r) × Progress o r × (orig ≡ m)
  unfolding receipt_on
  receipt_inv orig receipt at none r t h = absurd (ground arith)
  receipt_inv orig receipt at (some o) r t h = elim (Bool-cases (str_eq orig m)) [
    | inr n ↦ absurd (ground (arith, n))
    | inl n ↦
        let made : r ≡ record o {
          delivery = record (o.delivery) {
            state = delivered;
            receipt_msg_id = receipt;
            delivered_at_ms = some at;
          };
        } =
          ground (arith, n) in
        (
          o,
          refl,
          ground (arith, n),
          rw made (record {
            message_kept = refl;
            kind_kept = refl;
            confirmed_kept = λ c. refl;
            attempts_kept = ([], sym (append-nil _));
          }),
          (eq_iff orig m).0 n,
        )
  ]

  -- A confirming reply, and what it needs to write.
  abbrev Confirms : Option String → PendingInteraction → PendingInteraction → Store → Type 0
  Confirms in_reply_to o r t =
      (in_reply_to ≡ some m)
      × (((r ≡ o) × (t ≡ s))
          ⊎ ((t ≡ written r)
              × (is_confirmable o.kind ≡ true)
              × (o.delivery.state ≡ WireDeliveryState.sent_unconfirmed)))

  confirm_inv :
      (in_reply_to : Option String) (at : ℕ) (q : Option PendingInteraction)
      (r : PendingInteraction) (t : Store)
      → reply_delivery_on s a m in_reply_to at q ≡ ok r t
      → (o : PendingInteraction) × (q ≡ some o) × Progress o r × Confirms in_reply_to o r t
  unfolding reply_delivery_on
  confirm_inv in_reply_to at none r t h = absurd (ground arith)
  confirm_inv none at (some o) r t h = absurd (ground arith)
  confirm_inv (some target) at (some o) r t h = elim (Bool-cases (str_eq target m)) [
    | inr n ↦ absurd (ground (arith, n))
    | inl n ↦
        let named : some target ≡ some m = ap some ((eq_iff target m).0 n) in
        elim (Bool-cases (is_confirmable o.kind)) [
          | inr k ↦
              let kept : r ≡ o = ground (arith, n, k) in
              (o, refl, rw kept (Progress-refl o), (named, inl (kept, ground (arith, n, k))))
          | inl k ↦ elim (Bool-cases (is_sent_unconfirmed o.delivery.state)) [
            | inr u ↦
                let kept : r ≡ o = ground (arith, n, k, u) in
                (o, refl, rw kept (Progress-refl o), (named, inl (kept, ground (arith, n, k, u))))
            | inl u ↦
                let made : r ≡ record o {
                  delivery = record (o.delivery) { state = delivered; delivered_at_ms = some at };
                } =
                  ground (arith, n, k, u) in
                (
                  o,
                  refl,
                  rw made (record {
                    message_kept = refl;
                    kind_kept = refl;
                    confirmed_kept = λ c. refl;
                    attempts_kept = ([], sym (append-nil _));
                  }),
                  (named, inr (ground (arith, n, k, u), k, ground (arith, u))),
                )
          ]
        ]
  ]
