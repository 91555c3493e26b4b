-- ===== src/Activation/PendingStore/Delivery/Persistence.antt =====
-- Every run of the calls of src/activation/transport/pending-store.ts: records persist.
use mathlib.Core.List.{append_assoc}
use unit_ai_specialists.Common.{
  ℕ, ◌≡◌, refl, sym, ◌∙◌, ap, subst, inl, inr, true, false, none, some, [], ◌++◌, String, eq_iff,
  eq_refl, defined, arith, Bool-cases, Option-cases,
}
use unit_ai_specialists.Activation.Interaction.{InteractionMessage}
use unit_ai_specialists.Activation.PendingStore.{
  PendingInteraction, InteractionReply, Store, file_at, write_at, parsed, read, ok, CreateInput,
  create, record_attempt, record_receipt, record_reply, record_reply_delivery, pending,
  already_exists, err,
}
use unit_ai_specialists.Activation.PendingStore.Delivery.{
  Progress, Progress-refl, Step, created, attempted, receipted, replied, confirmed, same_file,
  read-write_at, save-Progress, attempt_inv, receipt_inv, confirm_inv,
}

abbrev pub Persists : PendingInteraction → Store → String → String → Type 0
Persists r t a m = (r' : PendingInteraction) × (read t a m ≡ some r') × Progress r r'

-- A record is created only where there is no file.
pub create_inv :
    (s t : Store) (input : CreateInput) (now : ℕ) (r : PendingInteraction)
    → create s input now ≡ ok r t
    → (defined (file_at input.activation_id input.message_id s.records) ≡ false)
      × (t ≡ record s { records = write_at input.activation_id input.message_id r s.records })
      × (r.delivery.state ≡ pending)
      × (r.delivery.attempts ≡ [])
      × (r.message ≡ input.message)
unfolding create
create_inv s t input now r h =
    elim (Bool-cases (defined (file_at input.activation_id input.message_id s.records))) [
      | inl e ↦ absurd (ground (arith, e))
      | inr e ↦ (e, ground (arith, e), ground (arith, e), ground (arith, e), ground (arith, e))
    ]

create_taken :
    (s : Store) (input : CreateInput) (now : ℕ)
    → defined (file_at input.activation_id input.message_id s.records) ≡ true
    → create s input now ≡ err already_exists
unfolding create
create_taken s input now h = rw h refl

read_of_undefined :
    (s : Store) (a m : String) → defined (file_at a m s.records) ≡ false → read s a m ≡ none
unfolding read
read_of_undefined s a m h = elim (Option-cases (file_at a m s.records)) [
  | inl e ↦ rw e refl
  | inr (x, e) ↦ absurd (ground (arith, e))
]

create-Persists :
    (s t : Store) (input : CreateInput) (now : ℕ) (n r : PendingInteraction) (a m : String)
    → create s input now ≡ ok n t
    → read s a m ≡ some r
    → Persists r t a m
create-Persists s t input now n r a m h e =
    let (free, left, fresh, none_yet, same_message) = create_inv s t input now n h in
    elim (Bool-cases (same_file input.activation_id input.message_id a m)) [
      | inl q ↦
          let missing = read_of_undefined s input.activation_id input.message_id free in
          let here : input.activation_id ≡ a =
            (eq_iff input.activation_id a).0 (ground (arith, q)) in
          let also : input.message_id ≡ m = (eq_iff input.message_id m).0 (ground (arith, q)) in
          absurd (cc (missing, e, here, also))
      | inr q ↦ (
        r,
        rw left (rw (read-write_at s input.activation_id input.message_id a m n, q) e),
        Progress-refl r,
      )
    ]

-- A reply is written beside the record, never over it.
pub record_reply_reads :
    (s t : Store) (a' m' : String) (body : InteractionMessage) (at : ℕ) (n : InteractionReply)
    (a m : String)
    → record_reply s a' m' body at ≡ ok n t
    → read t a m ≡ read s a m
unfolding record_reply read
record_reply_reads s t a' m' body at n a m h =
    elim (Bool-cases (defined (parsed (file_at a' m' s.records)))) [
      | inr e ↦ absurd (ground (arith, e))
      | inl e ↦ let left : t.records ≡ s.records = ground (arith, e) in rw left refl
    ]

-- Whatever call writes, every readable record stays readable, keeps its message and its attempts,
-- and once delivered stays delivered.
pub Step-Persists :
    {s t : Store} (r : PendingInteraction) (a m : String)
    → Step s t
    → read s a m ≡ some r
    → Persists r t a m
unfolding record_attempt record_receipt record_reply_delivery
Step-Persists {s} {t} r a m (created input now n h) e = create-Persists s t input now n r a m h e
Step-Persists {s} {t} r a m (attempted a' m' x n h) e =
    let (o, was, left, p, back) = attempt_inv s a' m' x (read s a' m') n t h in
    subst (λ u. Persists r u a m) (sym left) (save-Progress s a' m' o n r a m was p e)
Step-Persists {s} {t} r a m (receipted a' m' orig receipt at n h) e =
    let (o, was, left, p, named) = receipt_inv s a' m' orig receipt at (read s a' m') n t h in
    subst (λ u. Persists r u a m) (sym left) (save-Progress s a' m' o n r a m was p e)
Step-Persists {s} {t} r a m (replied a' m' body at n h) e =
    (r, rw (record_reply_reads s t a' m' body at n a m h) e, Progress-refl r)
Step-Persists {s} {t} r a m (confirmed a' m' answer at n h) e =
    let (o, was, p, why) = confirm_inv s a' m' answer at (read s a' m') n t h in
    elim why.1 [
      | inl (same, kept) ↦ subst (λ u. Persists r u a m) (sym kept) (r, e, Progress-refl r)
      | inr (left, k, u) ↦
          subst (λ u. Persists r u a m) (sym left) (save-Progress s a' m' o n r a m was p e)
    ]

pub data Reach (s : Store) : Store → Type 0 where
  here : Reach s s
  next : {t u : Store} → Reach s t → Step t u → Reach s u

Progress-trans : {p q r : PendingInteraction} → Progress p q → Progress q r → Progress p r
Progress-trans {p} {q} {r} x y =
    let (more, first) = x.attempts_kept in
    let (later, second) = y.attempts_kept in
    record {
      message_kept = y.message_kept ∙ x.message_kept;
      kind_kept = y.kind_kept ∙ x.kind_kept;
      confirmed_kept = λ h. y.confirmed_kept (x.confirmed_kept h);
      attempts_kept = (
        more ++ later,
        second ∙ ap (λ l. l ++ later) first ∙ append_assoc p.delivery.attempts more later,
      );
    }

-- No run of the store's calls loses a record: it stays readable with its message, its attempts are
-- only added to, and a delivery once confirmed stays confirmed.
pub record-Persists :
    {s t : Store} (r : PendingInteraction) (a m : String)
    → Reach s t
    → read s a m ≡ some r
    → Persists r t a m
record-Persists r a m here e = (r, e, Progress-refl r)
record-Persists r a m (next run step) e =
    let (q, reads, p) = record-Persists r a m run e in
    let (q', reads', p') = Step-Persists q a m step reads in (q', reads', Progress-trans p p')

-- A created record reads back as pending with no attempt; where any file stands, a corrupt one too,
-- creation is refused.
pub create-read :
    (s : Store) (input : CreateInput) (now : ℕ)
    → (defined (file_at input.activation_id input.message_id s.records) ≡ true
        → create s input now ≡ err already_exists)
      × ((t : Store) (r : PendingInteraction)
          → create s input now ≡ ok r t
          → (read t input.activation_id input.message_id ≡ some r)
            × (r.delivery.state ≡ pending)
            × (r.delivery.attempts ≡ [])
            × (r.message ≡ input.message))
create-read s input now = (
  λ h. create_taken s input now h,
  λ t r h.
      let (free, left, waits, none_yet, same) = create_inv s t input now r h in
      (
        rw
            (
              left,
              read-write_at s input.activation_id input.message_id input.activation_id
                  input.message_id r,
              eq_refl input.activation_id,
              eq_refl input.message_id,
            )
            refl,
        waits,
        none_yet,
        same,
      ),
)
