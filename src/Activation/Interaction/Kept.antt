-- ===== src/Activation/Interaction/Kept.antt =====
-- No silent loss in src/activation/interaction.ts: an ask stays pending until a reply to it stands
-- in the history, and it counts as delivered on a receipt alone.
use unit_ai_specialists.Common.{
  ℕ, ◌≡◌, refl, sym, subst, ◌↔◌, ◌⊎◌, inl, inr, Bool, true, ◌||◌, ◌&&◌, ◌∙◌, Option, none, some,
  List, [], ◌∷◌, ◌++◌, String, str_eq, eq_refl, if◌then◌else◌, arith, any, is_text, Bool-cases,
}
use unit_ai_specialists.Common.Dict.{Dict, get, set, has, get-set, has-set, has-delete}
use unit_ai_specialists.Activation.Interaction.{
  Transport, InteractionMessage, PendingAsk, pending, SendInput, Delivery, no_hook, threw, gave,
  answer, send_begin, send_finish, request_begin, request_finish, take_early, mark_delivery,
  expects_answer, is_reply, reply, delivered, attempt_delivery, compose_interaction_message,
}
use unit_ai_specialists.Activation.Interaction.Served.{
  Step, sends, sent, asks, asked, replies, Reach, here, next, reply_of,
}

-- A message of the kind `reply` that names this id.
abbrev pub replies_to : String → InteractionMessage → Bool
replies_to id m = is_reply m.kind && is_text m.in_reply_to id

-- The ask with this id is pending, or a reply in the history answers it.
abbrev pub Kept : String → Transport → Type 0
Kept id s = (has id s.pending ≡ true) ⊎ (any (replies_to id) s.log ≡ true)

any-append :
    (p : InteractionMessage → Bool) (xs ys : List InteractionMessage)
    → any p (xs ++ ys) ≡ (any p xs || any p ys)
any-append p [] ys = refl
any-append p (x ∷ xs) ys = ground (arith, any-append p xs ys)

answer-Kept :
    (id target : String) (m : InteractionMessage) (s : Transport)
    → m.kind ≡ reply
    → m.in_reply_to ≡ some target
    → Kept id s
    → Kept id (answer target m s)
unfolding answer
answer-Kept id target m s k e h = elim (Bool-cases (str_eq target id)) [
  | inl q ↦ inr (rw any-append (ground (arith, k, e, q)))
  | inr q ↦ elim h [
    | inl p ↦ inl (rw (has-delete, q) p)
    | inr l ↦ inr (rw any-append (ground (arith, l)))
  ]
]

set-has :
    (id key : String) (a : PendingAsk) (all : Dict PendingAsk)
    → has id all ≡ true
    → has id (set key a all) ≡ true
set-has id key a all h = elim (Bool-cases (str_eq key id)) [
  | inl q ↦ rw (has-set, q) refl
  | inr q ↦ rw (has-set, q) h
]

mark_delivery-has :
    (id key : String) (ok : Bool) (o : Option PendingAsk) (all : Dict PendingAsk)
    → has id all ≡ true
    → has id (mark_delivery key ok o all) ≡ true
unfolding mark_delivery
mark_delivery-has id key ok none all h = h
mark_delivery-has id key ok (some a) all h = set-has id key _ all h

send_finish-Kept :
    (id : String) (m : InteractionMessage) (d : Delivery) (s : Transport)
    → Kept id s
    → Kept id (send_finish m d s)
unfolding send_finish
send_finish-Kept id m d s h = elim h [
  | inl p ↦ inl (
      mark_delivery-has id m.message_id (attempt_delivery d) (get m.message_id s.pending) s.pending
        p)
  | inr l ↦ inr l
]

send_begin-Kept :
    (id : String) (input : SendInput) (key : String) (now : ℕ) (s : Transport)
    → Kept id s
    → Kept id (send_begin input key now s).1
unfolding send_begin
send_begin-Kept id input key now s h =
    let m : InteractionMessage = compose_interaction_message input key now in
    let ask : PendingAsk = record { message = m; delivery = pending; asked_at = m.created_at } in
    elim (Bool-cases (expects_answer input.kind)) [
      | inl e ↦ elim h [
        | inl p ↦ inl (rw e (set-has id key ask s.pending p))
        | inr l ↦ inr (rw (e, any-append) (rw l refl))
      ]
      | inr e ↦ elim h [ inl p ↦ inl (rw e p) | inr l ↦ inr (rw (e, any-append) (rw l refl)) ]
    ]

take_early_frame :
    (key : String) (o : Option InteractionMessage) (s : Transport)
    → ((take_early key o s).1.pending ≡ s.pending) × ((take_early key o s).1.log ≡ s.log)
unfolding take_early
take_early_frame key none s = (refl, refl)
take_early_frame key (some m) s = (refl, refl)

Step-Kept : {s t : Transport} (id : String) → Step s t → Kept id s → Kept id t
unfolding request_begin request_finish
Step-Kept id (sends input key now s k f) h = send_begin-Kept id input key now s h
Step-Kept id (sent m d s) h = send_finish-Kept id m d s h
Step-Kept id (asks input key now s f) h =
    send_begin-Kept id (record input { in_reply_to = none }) key now
      (record s { waiters = set key tt s.waiters }) h
Step-Kept id (asked m d s) h =
    let (p, l) = take_early_frame m.message_id (get m.message_id s.answered) (send_finish m d s) in
    rw (p, l) (send_finish-Kept id m d s h)
Step-Kept id (replies input key target now s t m k e r) h =
    let (names, left, kind) = reply_of input key target now s t m e r in
    subst (Kept id) (sym left) (answer-Kept id target m s (kind ∙ k) names h)

Reach-Kept : {s t : Transport} (id : String) → Reach s t → Kept id s → Kept id t
Reach-Kept id here h = h
Reach-Kept id (next r st) h = Step-Kept id st (Reach-Kept id r h)

send_begin-has :
    (input : SendInput) (id : String) (now : ℕ) (s : Transport)
    → expects_answer input.kind ≡ true
    → has id (send_begin input id now s).1.pending ≡ true
unfolding send_begin
send_begin-has input id now s e = rw e (rw (has-set, eq_refl id) refl)

-- A question or an escalation that was sent stays among the pending asks, through every
-- interleaving and whatever its delivery does, until the history holds a message of the kind reply
-- that names it: no other message that cites it takes it away.
pub ask-Kept :
    {t : Transport} (input : SendInput) (id : String) (now : ℕ) (s : Transport)
    → expects_answer input.kind ≡ true
    → Reach (send_begin input id now s).1 t
    → Kept id t
ask-Kept input id now s e r = Reach-Kept id r (inl (send_begin-has input id now s e))

receipt_iff :
    (d : Delivery)
    → ((if attempt_delivery d then delivered else pending) ≡ delivered) ↔ (d ≡ gave true)
receipt_iff no_hook = ground arith
receipt_iff threw = ground arith
receipt_iff (gave b) = ground arith

-- Sending marks an ask delivered exactly when the delivery hook returned true: not when there is no
-- hook, nor when it threw.
pub delivered_iff :
    (m : InteractionMessage) (d : Delivery) (s : Transport) (ask : PendingAsk)
    → get m.message_id s.pending ≡ some ask
    → (after : PendingAsk) × (get m.message_id (send_finish m d s).pending ≡ some after)
      × (after.message ≡ ask.message)
      × ((after.delivery ≡ delivered) ↔ (d ≡ gave true))
unfolding send_finish
delivered_iff m d s ask e = (
  record ask { delivery = if attempt_delivery d then delivered else pending },
  rw (e, mark_delivery) (rw (get-set, eq_refl m.message_id) refl),
  refl,
  receipt_iff d,
)
