-- ===== src/JobRegistry/Sessions/Frames.antt =====
-- What the calls of src/specialist/jobRegistry.ts leave alone: the map of references.
use unit_ai_specialists.Common.{
  ℕ, ◌==◌, false, ◌≡◌, refl, ap, subst, inl, inr, Option, none, some, String, Bool-cases,
  Option-cases,
}
use unit_ai_specialists.Common.Dict.{get}
use unit_ai_specialists.JobRegistry.{
  Registry, Method, call, is_waiting, is_running, write, with_job, with_ref,
}
use unit_ai_specialists.JobRegistry.Sessions.{
  Begun, refused, awaiting, resume_on, follow_up_on, follow_up_begin, close_on, close_session_begin,
  steer_with, steer_on, steer_begin,
}

pub call_frame :
    (m : Method) (id : String) (reg : Registry)
    → ((call m id reg).jobs ≡ reg.jobs) × ((call m id reg).next ≡ reg.next)
unfolding call with_job with_ref write
call_frame m id reg = elim (Option-cases (get id reg.jobs)) [
  | inl n ↦ rw n (refl, refl)
  | inr (r, e) ↦ rw e (refl, refl)
]

-- The second registry has the objects of the first one but at this reference.
abbrev pub Elsewhere : Registry → ℕ → Registry → Type 0
Elsewhere reg r t = (q : ℕ) → (q == r) ≡ false → t.heap q ≡ reg.heap q

-- An awaiting call came from this registry, for the object at this reference.
abbrev From : Registry → ℕ → Begun → Type 0
From reg q (refused why) = Unit {0}
From reg q (awaiting r t) = (q ≡ r) × (t.jobs ≡ reg.jobs) × (t.next ≡ reg.next) × Elsewhere reg r t

resume_From :
    (message : String) (q : ℕ) (fn : Option String) (reg : Registry)
    → From reg q (resume_on message q fn reg)
unfolding resume_on write
resume_From message q none reg = tt
resume_From message q (some fn) reg = (refl, refl, refl, λ p n. rw n refl)

steer_From :
    (message : String) (q : ℕ) (fn : Option String) (reg : Registry)
    → From reg q (steer_with message q fn reg)
unfolding steer_with
steer_From message q none reg = tt
steer_From message q (some fn) reg = (refl, refl, refl, λ _ _. refl)

abbrev FromOption : Registry → Option ℕ → Begun → Type 0
FromOption reg o (refused why) = Unit {0}
FromOption reg o (awaiting r t) =
    (o ≡ some r) × (t.jobs ≡ reg.jobs) × (t.next ≡ reg.next) × Elsewhere reg r t

to_option : (reg : Registry) (q : ℕ) (b : Begun) → From reg q b → FromOption reg (some q) b
to_option reg q (refused why) h = tt
to_option reg q (awaiting r t) h = (ap some h.0, h.1, h.2, h.3)

follow_up_From :
    (message : String) (o : Option ℕ) (reg : Registry)
    → FromOption reg o (follow_up_on message o reg)
unfolding follow_up_on
follow_up_From message none reg = tt
follow_up_From message (some q) reg = elim (Bool-cases (is_waiting (reg.heap q).status)) [
  | inl w ↦ rw w (
      to_option reg q (resume_on message q (reg.heap q).resume_fn reg)
        (resume_From message q (reg.heap q).resume_fn reg))
  | inr w ↦ rw w tt
]

close_From : (o : Option ℕ) (reg : Registry) → FromOption reg o (close_on o reg)
unfolding close_on
close_From none reg = tt
close_From (some q) reg = elim (Bool-cases (is_waiting (reg.heap q).status)) [
  | inl w ↦ rw w (refl, refl, refl, λ _ _. refl)
  | inr w ↦ rw w tt
]

steer_on_From :
    (message : String) (o : Option ℕ) (reg : Registry) → FromOption reg o (steer_on message o reg)
unfolding steer_on
steer_on_From message none reg = tt
steer_on_From message (some q) reg = elim (Bool-cases (is_running (reg.heap q).status)) [
  | inl w ↦ rw w (
      to_option reg q (steer_with message q (reg.heap q).steer_fn reg)
        (steer_From message q (reg.heap q).steer_fn reg))
  | inr w ↦ rw w tt
]

module _ (id : String) (reg t : Registry) (r : ℕ) where
  pub close_frame :
      close_session_begin id reg ≡ awaiting r t
      → (get id reg.jobs ≡ some r) × (t.jobs ≡ reg.jobs) × (t.next ≡ reg.next) × Elsewhere reg r t
  unfolding close_session_begin
  close_frame h = subst (FromOption reg (get id reg.jobs)) h (close_From (get id reg.jobs) reg)

module _ (id message : String) (reg t : Registry) (r : ℕ) where
  pub follow_up_frame :
      follow_up_begin id message reg ≡ awaiting r t
      → (get id reg.jobs ≡ some r) × (t.jobs ≡ reg.jobs) × (t.next ≡ reg.next) × Elsewhere reg r t
  unfolding follow_up_begin
  follow_up_frame h =
      subst (FromOption reg (get id reg.jobs)) h (follow_up_From message (get id reg.jobs) reg)

  pub steer_frame :
      steer_begin id message reg ≡ awaiting r t
      → (get id reg.jobs ≡ some r) × (t.jobs ≡ reg.jobs) × (t.next ≡ reg.next) × Elsewhere reg r t
  unfolding steer_begin
  steer_frame h =
      subst (FromOption reg (get id reg.jobs)) h (steer_on_From message (get id reg.jobs) reg)
