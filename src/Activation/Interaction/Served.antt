-- ===== src/Activation/Interaction/Served.antt =====
-- Any interleaving of the calls of src/activation/interaction.ts: no ask is lost, and no waiter
-- sleeps through its answer.
use unit_ai_specialists.Common.{
  ℕ, ◌≡◌, refl, sym, subst, ◌⊎◌, inl, inr, true, false, Option, none, some, String, str_eq, eq_iff,
  eq_refl, arith, Bool-cases,
}
use unit_ai_specialists.Common.Dict.{get, set, has, get-set, has-set, has-delete}
use unit_ai_specialists.Activation.Interaction.{
  Transport, InteractionMessage, SendInput, Delivery, reply, is_reply, reply_step, reply_to,
  replied, answer, send_begin, send_finish, request_begin, request_finish, take_early,
  compose_interaction_message,
}
use unit_ai_specialists.Activation.Interaction.Steps.{reply_to-replied}

-- A fresh id is in none of the maps: `randomUUID` makes the ids.
abbrev pub IsFresh : String → Transport → Type 0
IsFresh id s =
    (has id s.pending ≡ false)
    × (has id s.waiters ≡ false)
    × (has id s.answered ≡ false)
    × (has id s.settled ≡ false)

-- One part of a call, run to its next await. `send` hands a reply, and nothing else, to `reply`.
pub data Step : Transport → Transport → Type 0 where
  sends :
      (input : SendInput) (id : String) (now : ℕ) (s : Transport)
      → is_reply input.kind ≡ false
      → IsFresh id s
      → Step s (send_begin input id now s).1
  sent : (m : InteractionMessage) (d : Delivery) (s : Transport) → Step s (send_finish m d s)
  asks :
      (input : SendInput) (id : String) (now : ℕ) (s : Transport)
      → IsFresh id s
      → Step s (request_begin input id now s).1
  asked : (m : InteractionMessage) (d : Delivery) (s : Transport) → Step s (request_finish m d s).1
  replies :
      (input : SendInput) (id target : String) (now : ℕ) (s t : Transport) (m : InteractionMessage)
      → input.kind ≡ reply
      → input.in_reply_to ≡ some target
      → reply_step input id now s ≡ replied m t
      → Step s t

pub data Reach (s : Transport) : Transport → Type 0 where
  here : Reach s s
  next : {t u : Transport} → Reach s t → Step t u → Reach s u

-- The request with this id sleeps and nobody has answered it, or its promise holds a reply to it.
abbrev pub Served : String → Transport → Type 0
Served id s =
    ((has id s.waiters ≡ true) × (has id s.answered ≡ false))
    ⊎ ((m : InteractionMessage) × (get id s.settled ≡ some m) × (m.in_reply_to ≡ some id))

answer-Served :
    (id target : String) (m : InteractionMessage) (s : Transport)
    → m.in_reply_to ≡ some target
    → Served id s
    → Served id (answer target m s)
unfolding answer
answer-Served id target m s e h = elim (Bool-cases (str_eq target id)) [
  | inl q ↦
      let same = (eq_iff target id).0 q in
      elim (Bool-cases (has target s.waiters)) [
        | inl w ↦ inr (m, rw (w, get-set, q) refl, rw (← same) e)
        | inr w ↦ elim h [
          | inl (sleeps, _) ↦ absurd (ground (arith, same, w, sleeps))
          | inr (r, g, c) ↦ inr (r, rw w g, c)
        ]
      ]
  | inr q ↦ elim h [
    | inl (w, n) ↦ inl (rw (has-delete, q) w, rw (has-set, q) n)
    | inr (r, g, c) ↦ inr (
      r,
      elim (Bool-cases (has target s.waiters)) [ inl w ↦ rw (w, get-set, q) g | inr w ↦ rw w g ],
      c,
    )
  ]
]

take_early-Served :
    (id key : String) (o : Option InteractionMessage) (s : Transport)
    → get key s.answered ≡ o
    → Served id s
    → Served id (take_early key o s).1
unfolding take_early
take_early-Served id key none s e h = h
take_early-Served id key (some early) s e h = elim h [
  | inr (r, g, c) ↦ inr (r, g, c)
  | inl (w, n) ↦ elim (Bool-cases (str_eq key id)) [
    | inl q ↦ let same = (eq_iff key id).0 q in absurd (ground (arith, same, n, e))
    | inr q ↦ inl (rw (has-delete, q) w, rw (has-delete, q) n)
  ]
]

-- Only the maps that `Served` reads matter.
Served-same :
    (id : String) (s t : Transport)
    → t.waiters ≡ s.waiters
    → t.answered ≡ s.answered
    → t.settled ≡ s.settled
    → Served id s
    → Served id t
Served-same id s t w a d h = rw (w, a, d) h

send_begin_frame :
    (input : SendInput) (id : String) (now : ℕ) (s : Transport)
    → let t = (send_begin input id now s).1 in
      (t.waiters ≡ s.waiters) × (t.answered ≡ s.answered) × (t.settled ≡ s.settled)
unfolding send_begin
send_begin_frame input id now s = ground arith

waiting-Served :
    (id key : String) (s : Transport)
    → Served id s
    → Served id (record s { waiters = set key tt s.waiters })
waiting-Served id key s h = elim h [
  | inr (r, g, c) ↦ inr (r, g, c)
  | inl (w, n) ↦ inl (
    elim (Bool-cases (str_eq key id)) [ inl q ↦ rw (has-set, q) refl | inr q ↦ rw (has-set, q) w ],
    n,
  )
]

pub reply_of :
    (input : SendInput) (id target : String) (now : ℕ) (s t : Transport) (m : InteractionMessage)
    → input.in_reply_to ≡ some target
    → reply_step input id now s ≡ replied m t
    → (m.in_reply_to ≡ some target) × (t ≡ answer target m s) × (m.kind ≡ input.kind)
unfolding reply_step compose_interaction_message
reply_of input id target now s t m e r =
    let (q, p, made, left) =
      reply_to-replied input id now s target m t
        (subst (λ o. reply_to input id now s o ≡ replied m t) e r) in
    (rw (made, e, q) refl, left, rw made refl)

Step-Served : {s t : Transport} (id : String) → Step s t → Served id s → Served id t
unfolding send_finish request_begin request_finish reply_step
Step-Served id (sends input key now s k f) h =
    let (w, a, d) = send_begin_frame input key now s in
    Served-same id s (send_begin input key now s).1 w a d h
Step-Served id (sent m d s) h = h
Step-Served id (asks input key now s f) h =
    let slept : Transport = record s { waiters = set key tt s.waiters } in
    let (w, a, d) = send_begin_frame (record input { in_reply_to = none }) key now slept in
    Served-same id slept (request_begin input key now s).1 w a d (waiting-Served id key s h)
Step-Served id (asked m d s) h =
    take_early-Served id m.message_id (get m.message_id s.answered) (send_finish m d s) refl h
Step-Served id (replies input key target now s t m k e r) h =
    let (names, left, _) = reply_of input key target now s t m e r in
    subst (Served id) (sym left) (answer-Served id target m s names h)

Reach-Served : {s t : Transport} (id : String) → Reach s t → Served id s → Served id t
Reach-Served id here h = h
Reach-Served id (next r st) h = Step-Served id st (Reach-Served id r h)

request_begin_frame :
    (input : SendInput) (id : String) (now : ℕ) (s : Transport)
    → (has id (request_begin input id now s).1.waiters ≡ true)
      × ((request_begin input id now s).1.answered ≡ s.answered)
unfolding request_begin
request_begin_frame input id now s =
    let slept : Transport = record s { waiters = set id tt s.waiters } in
    let (w, a, d) = send_begin_frame (record input { in_reply_to = none }) id now slept in
    (rw (w, has-set, eq_refl id) refl, a)

-- In every run of the transport after a request has begun, however the calls interleave, the
-- request sleeps and no answer to it is kept aside, or its promise holds a reply that names it.
pub request-Served :
    {t : Transport} (input : SendInput) (id : String) (now : ℕ) (s : Transport)
    → IsFresh id s
    → Reach (request_begin input id now s).1 t
    → Served id t
request-Served input id now s f r =
    let (sleeps, same) = request_begin_frame input id now s in
    Reach-Served id r (inl (sleeps, rw same f.2))
