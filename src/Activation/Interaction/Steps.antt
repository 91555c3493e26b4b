-- ===== src/Activation/Interaction/Steps.antt =====
-- What an accepted reply is made of (src/activation/interaction.ts).
use unit_ai_specialists.Common.{
  ℕ, ◌≡◌, refl, true, false, some, String, truthy, inl, inr, arith, Bool-cases,
}
use unit_ai_specialists.Common.Dict.{has}
use unit_ai_specialists.Activation.Interaction.{
  Transport, InteractionMessage, SendInput, uncorrelated, replied, reply_to, answer,
  compose_interaction_message,
}

module _ (input : SendInput) (id : String) (now : ℕ) (s : Transport) (target : String) where
  pub reply_to-replied :
      (m : InteractionMessage) (t : Transport)
      → reply_to input id now s (some target) ≡ replied m t
      → (truthy (some target) ≡ true)
        × (has target s.pending ≡ true)
        × (m ≡ compose_interaction_message input id now)
        × (t ≡ answer target m s)
  unfolding reply_to
  reply_to-replied m t h = elim (Bool-cases (truthy (some target))) [
    | inr e ↦ absurd (ground (arith, e))
    | inl e ↦ elim (Bool-cases (has target s.pending)) [
      | inr p ↦ absurd (ground (arith, e, p))
      | inl p ↦ (e, p, ground (arith, e, p), ground (arith, e, p))
    ]
  ]

  pub reply_to-eq :
      truthy (some target) ≡ true
      → has target s.pending ≡ true
      → reply_to input id now s (some target)
        ≡ replied
            (compose_interaction_message input id now)
            (answer target (compose_interaction_message input id now) s)
  unfolding reply_to
  reply_to-eq e p = rw (e, p) refl

  pub reply_to-absent :
      has target s.pending ≡ false
      → reply_to input id now s (some target) ≡ uncorrelated (some target)
  unfolding reply_to
  reply_to-absent p = elim (Bool-cases (truthy (some target))) [
    | inl e ↦ rw (e, p) refl
    | inr e ↦ rw e refl
  ]
