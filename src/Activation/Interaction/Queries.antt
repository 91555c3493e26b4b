-- ===== src/Activation/Interaction/Queries.antt =====
-- The readings of the transport, src/activation/interaction.ts, and what a reply does to them.
use unit_ai_specialists.Common.{
  ℕ, ◌≡◌, refl, sym, subst, ◌↔◌, Bool, true, false, not, ◌||◌, Option, none, some, List, [], ◌∷◌,
  String, str_eq, eq_refl, truthy, any, filter, if◌then◌else◌, arith,
}
use unit_ai_specialists.Common.Dict.{get, has, values, get-delete}
use unit_ai_specialists.Common.Sorting.{sort_by, SortedBy, SortedBy-sort_by, any-sort_by}
use unit_ai_specialists.Activation.Interaction.{
  PendingAsk, Transport, InteractionKind, escalation, InteractionMessage, SendInput, uncorrelated,
  replied, reply_step, reply_to, answer, compose_interaction_message,
}
use unit_ai_specialists.Activation.Interaction.Steps.{
  reply_to-replied, reply_to-eq, reply_to-absent,
}

-- `!id || from === id || to === id`.
abbrev concerns : Option String → PendingAsk → Bool
concerns none ask = true
concerns (some p) ask =
    not (truthy (some p)) || (str_eq ask.message.from p || str_eq ask.message.to p)

unfoldable pub pending_asks : Option String → Transport → List PendingAsk
pending_asks who s = sort_by (λ a. a.asked_at) (filter (concerns who) (values s.pending))

unfoldable pub attention : String → Transport → Bool
attention p s = any (λ a. str_eq a.message.to p) (values s.pending)

pub data ImpliedState : Type 0 where
  needs_reply escalated : ImpliedState

abbrev is_escalation : InteractionKind → Bool
is_escalation escalation = true
is_escalation _ = false

abbrev nonempty : List PendingAsk → Bool
nonempty [] = false
nonempty (_ ∷ _) = true

unfoldable pub implied_state : String → Transport → Option ImpliedState
implied_state activation s =
    let asks = filter (λ a. str_eq a.message.activation_id activation) (values s.pending) in
    if any (λ a. is_escalation a.message.kind) asks
    then some escalated
    else if nonempty asks
    then some needs_reply
    else none

filter-all : (asks : List PendingAsk) → filter (concerns none) asks ≡ asks
filter-all [] = refl
filter-all (a ∷ asks) = ground (arith, filter-all asks)

-- The asks come oldest first, and a participant needs attention exactly when an ask to it is among
-- them.
pub pending_asks-attention :
    (s : Transport) (p : String)
    → SortedBy (λ (a : PendingAsk). a.asked_at) (pending_asks none s)
      × (attention p s ≡ any (λ a. str_eq a.message.to p) (pending_asks none s))
unfolding pending_asks attention
pending_asks-attention s p = (
  SortedBy-sort_by (λ (a : PendingAsk). a.asked_at) (filter (concerns none) (values s.pending)),
  rw (any-sort_by, filter-all) refl,
)

-- A reply is accepted exactly when it names an ask that is still pending.
pub reply_iff :
    (input : SendInput) (id : String) (now : ℕ) (s : Transport) (target : String)
    → input.in_reply_to ≡ some target
    → ((m : InteractionMessage) × (t : Transport) × (reply_step input id now s ≡ replied m t))
      ↔ ((truthy (some target) ≡ true) × (has target s.pending ≡ true))
unfolding reply_step
reply_iff input id now s target e = (
  λ h.
      let (m, t, r) = h in
      let (q, p, made, left) =
        reply_to-replied input id now s target m t
          (subst (λ o. reply_to input id now s o ≡ replied m t) e r) in
      (q, p),
  λ h. (
    compose_interaction_message input id now,
    answer target (compose_interaction_message input id now) s,
    subst
        (λ o.
          reply_to input id now s o
          ≡ replied (compose_interaction_message input id now)
              (answer target (compose_interaction_message input id now) s))
        (sym e) (reply_to-eq input id now s target h.0 h.1),
  ),
)

-- An accepted reply names its ask, takes that ask away and no other, and a second reply to the
-- same ask is refused.
pub reply_once :
    (input again : SendInput) (id id' : String) (now now' : ℕ) (s t : Transport)
    (m : InteractionMessage) (target : String)
    → input.in_reply_to ≡ some target
    → again.in_reply_to ≡ some target
    → reply_step input id now s ≡ replied m t
    → (m.in_reply_to ≡ some target)
      × ((k : String) → get k t.pending ≡ (if str_eq target k then none else get k s.pending))
      × (reply_step again id' now' t ≡ uncorrelated (some target))
unfolding reply_step answer compose_interaction_message
reply_once input again id id' now now' s t m target e e' h =
    let (q, p, made, left) =
      reply_to-replied input id now s target m t
        (subst (λ o. reply_to input id now s o ≡ replied m t) e h) in
    let gone : (k : String)
        → get k t.pending ≡ (if str_eq target k then none else get k s.pending) =
      λ k. rw (left, answer) (get-delete k target s.pending) in
    (
      rw (made, compose_interaction_message, e, q) refl,
      gone,
      subst (λ o. reply_to again id' now' t o ≡ uncorrelated (some target)) (sym e')
          (reply_to-absent again id' now' t target (rw (gone target, eq_refl target) refl)),
    )
