-- ===== src/Activation/PendingStore/Views/Waiting.antt =====
-- `awaitReply` of src/activation/transport/polling.ts: a loop on fuel over what each round sees.
use unit_ai_specialists.Common.{
  ℕ, zero, suc, ◌-◌, ◌≤◌, ◌<◌, leb, leb→le, ◌≡◌, ◌⊎◌, inl, inr, Bool, true, Option, none, some,
  if◌then◌else◌, arith, Bool-cases, Option-cases,
}
use unit_ai_specialists.Activation.PendingStore.{InteractionReply}

-- What one round reads: the reply file, the abort signal, and the clock.
pub record Look : Type 0 where
  pub reply : Option InteractionReply
  pub aborted : Bool
  pub now : ℕ

pub data Waited : Type 0 where
  replied : InteractionReply → Waited
  gave_up out_of_fuel : Waited

module _ (deadline : ℕ) (look : ℕ → Look) where
  unfoldable pub await_reply : ℕ → ℕ → Waited
  await_reply zero i = out_of_fuel
  await_reply (suc fuel) i =
      let again = await_reply fuel (suc i) in
      elim (look i).reply [
        | some r ↦ replied r
        | none ↦
            if (look i).aborted
            then gave_up
            else if leb deadline (look i).now
            then gave_up
            else again
      ]

  -- Each round sleeps for at least a millisecond.
  abbrev pub Ticks : Type 0
  Ticks = (i : ℕ) → (look i).now < (look (suc i)).now

  -- What the result says of the rounds that were made.
  abbrev pub Explains : ℕ → Waited → Type 0
  Explains i (replied r) = (j : ℕ) × (i ≤ j) × ((look j).reply ≡ some r)
  Explains i gave_up =
      (j : ℕ) × (i ≤ j)
      × ((look j).reply ≡ none)
      × (((look j).aborted ≡ true) ⊎ (deadline ≤ (look j).now))
  Explains i out_of_fuel = ⊥

  later : (i : ℕ) (w : Waited) → Explains (suc i) w → Explains i w
  later i (replied r) h = let (j, l, e) = h in (j, omega arith, e)
  later i gave_up h = let (j, l, e, w) = h in (j, omega arith, e, w)
  later i out_of_fuel h = h

  -- With more fuel than milliseconds to the deadline the wait ends. Its result is a reply that some
  -- round read, or it gave up in a round that read none and was aborted or past the deadline.
  pub await_reply_total :
      Ticks → (fuel i : ℕ) → deadline - (look i).now < fuel → Explains i (await_reply fuel i)
  unfolding await_reply
  await_reply_total ticks zero i h = elim h [ ]
  await_reply_total ticks (suc fuel) i h = elim (Option-cases (look i).reply) [
    | inr (r, e) ↦ rw (e, await_reply) (i, omega arith, e)
    | inl e ↦ elim (Bool-cases (look i).aborted) [
      | inl a ↦ rw (e, a, await_reply) (i, omega arith, e, inl a)
      | inr a ↦ elim (Bool-cases (leb deadline (look i).now)) [
        | inl d ↦ rw (e, a, d, await_reply) (i, omega arith, e, inr (leb→le _ _ d))
        | inr d ↦
            rw (e, a, d, await_reply)
              (later i (await_reply fuel (suc i))
                (await_reply_total ticks fuel (suc i) (ground (arith, ticks i, d))))
      ]
    ]
  ]
