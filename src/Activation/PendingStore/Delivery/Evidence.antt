-- ===== src/Activation/PendingStore/Delivery/Evidence.antt =====
-- What it takes for a record of src/activation/transport/pending-store.ts to count as delivered.
use unit_ai_specialists.Common.{
  ℕ, ◌≡◌, ◌≢◌, refl, inl, inr, true, Option, some, String, eq_iff, arith, Bool-cases,
}
use unit_ai_specialists.Activation.PendingStore.{
  delivered, PendingInteraction, Store, write_at, read, ok, record_attempt, record_receipt,
  record_reply_delivery, is_confirmable, WireDeliveryState,
}
use unit_ai_specialists.Activation.PendingStore.Delivery.{
  Step, created, attempted, receipted, replied, confirmed, same_file, read-write_at, attempt_inv,
  receipt_inv, confirm_inv,
}
use unit_ai_specialists.Activation.PendingStore.Delivery.Persistence.{
  create_inv, record_reply_reads,
}

-- What it takes to count as delivered: a receipt that names the message, or a reply to it, for a
-- kind that expects one and a push that a transport had accepted.
pub data Evidence (s t : Store) (a m : String) (r : PendingInteraction) : Type 0 where
  receipt :
      (id : Option String) (at : ℕ) (n : PendingInteraction)
      → record_receipt s a m m id at ≡ ok n t
      → Evidence s t a m r
  reply :
      (at : ℕ) (n : PendingInteraction)
      → record_reply_delivery s a m (some m) at ≡ ok n t
      → is_confirmable r.kind ≡ true
      → r.delivery.state ≡ WireDeliveryState.sent_unconfirmed
      → Evidence s t a m r

receipt_moved :
    (s t : Store) (a m a' m' orig : String) (id : Option String) (at : ℕ) (n : PendingInteraction)
    → a' ≡ a
    → m' ≡ m
    → orig ≡ m'
    → record_receipt s a' m' orig id at ≡ ok n t
    → record_receipt s a m m id at ≡ ok n t
receipt_moved s t a m a' m' orig id at n here also named h = cc

reply_moved :
    (s t : Store) (a m a' m' : String) (answer : Option String) (at : ℕ) (n : PendingInteraction)
    → a' ≡ a
    → m' ≡ m
    → answer ≡ some m'
    → record_reply_delivery s a' m' answer at ≡ ok n t
    → record_reply_delivery s a m (some m) at ≡ ok n t
reply_moved s t a m a' m' answer at n here also named h = cc

module _ (s t : Store) (r r' : PendingInteraction) (a m : String) (before : read s a m ≡ some r)
    (after : read t a m ≡ some r') (fresh : r.delivery.state ≢ delivered)
    (now : r'.delivery.state ≡ delivered) where
  -- The file that was written is the one in question, since another would read as before.
  hit :
      (a' m' : String) (n : PendingInteraction)
      → t ≡ record s { records = write_at a' m' n s.records }
      → (a' ≡ a) × (m' ≡ m) × (n ≡ r')
  hit a' m' n left = elim (Bool-cases (same_file a' m' a m)) [
    | inl q ↦
        let reads : read t a m ≡ some n = rw (left, read-write_at s a' m' a m n, q) refl in
        (
          (eq_iff a' a).0 (ground (arith, q)),
          (eq_iff m' m).0 (ground (arith, q)),
          cc (reads, after),
        )
    | inr q ↦
        let reads : read t a m ≡ some r = rw (left, read-write_at s a' m' a m n, q) before in
        let kept : r ≡ r' = cc (reads, after) in absurd (fresh (rw kept now))
  ]

  -- A record that a call turns to delivered had the evidence: a receipt that names the message, or a
  -- reply to it of a kind that expects one, for a push that a transport had accepted.
  pub delivered-Evidence : Step s t → Evidence s t a m r
  unfolding record_attempt record_receipt record_reply_delivery
  delivered-Evidence (created input now' n h) =
      let (free, left, waits, none_yet, same_message) = create_inv s t input now' n h in
      let (here, also, same) = hit input.activation_id input.message_id n left in
      absurd (cc (waits, same, now))
  delivered-Evidence (attempted a' m' x n h) =
      let (o, was, left, p, back) = attempt_inv s a' m' x (read s a' m') n t h in
      let (here, also, same) = hit a' m' n left in
      let old : o ≡ r = cc (was, before, here, also) in
      absurd (fresh (rw (← old) (back (rw same now))))
  delivered-Evidence (receipted a' m' orig id at n h) =
      let (o, was, left, p, named) = receipt_inv s a' m' orig id at (read s a' m') n t h in
      let (here, also, same) = hit a' m' n left in
      receipt id at n (receipt_moved s t a m a' m' orig id at n here also named h)
  delivered-Evidence (replied a' m' body at n h) =
      let kept : r ≡ r' = cc (record_reply_reads s t a' m' body at n a m h, before, after) in
      absurd (fresh (rw kept now))
  delivered-Evidence (confirmed a' m' answer at n h) =
      let (o, was, p, why) = confirm_inv s a' m' answer at (read s a' m') n t h in
      elim why.1 [
        | inl (same, kept) ↦
            let still : r ≡ r' = cc (before, after, kept) in absurd (fresh (rw still now))
        | inr (left, k, u) ↦
            let (here, also, same) = hit a' m' n left in
            let old : o ≡ r = cc (was, before, here, also) in
            reply at n (reply_moved s t a m a' m' answer at n here also why.0 h) (rw (← old) k)
              (rw (← old) u)
      ]
