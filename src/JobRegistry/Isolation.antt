-- ===== src/JobRegistry/Isolation.antt =====
-- Whose object a call of src/specialist/jobRegistry.ts writes: no two ids share an object.
use unit_ai_specialists.Common.{
  ℕ, ◌==◌, ◌≡◌, ◌≢◌, ◌⊎◌, false, refl, ◌∙◌, ap, inl, inr, some, String, str_eq, eq_iff, arith,
  Bool-cases, Option-cases, ==_iff,
}
use unit_ai_specialists.Common.Dict.{get, get-set, get-delete}
use unit_ai_specialists.JobRegistry.{
  JobState, Registry, find, write, with_ref, with_job, Method, writes, call, register, delete_job,
  Meta,
}
use unit_ai_specialists.JobRegistry.Runs.{
  WellFormed, Reach, Reach-WellFormed, Later, Owns, Later-Owns,
}
use unit_ai_specialists.JobRegistry.Sessions.{
  awaiting, Outcome, follow_up_begin, resumed_with, closed_with, follow_up_finish,
  close_session_begin, close_session_finish, steer_begin,
}
use unit_ai_specialists.JobRegistry.Sessions.Frames.{
  Elsewhere, follow_up_frame, close_frame, steer_frame,
}

module _ (reg : Registry) (w : WellFormed reg) (id other : String) (d : id ≢ other) where
  write_other :
      (r : ℕ) (j : JobState)
      → get id reg.jobs ≡ some r
      → find other (write r j reg) ≡ find other reg
  unfolding write
  write_other r j at = elim (Option-cases (get other reg.jobs)) [
    | inl n ↦ rw n refl
    | inr (q, e) ↦ elim (Bool-cases (q == r)) [
      | inr x ↦ rw (e, x) refl
      | inl x ↦
          let same : q ≡ r = (==_iff q r).0 x in absurd (d ((w id r at).1 other (e ∙ ap some same)))
    ]
  ]

  call_other : (m : Method) → find other (call m id reg) ≡ find other reg
  unfolding call with_job with_ref
  call_other m = elim (Option-cases (get id reg.jobs)) [
    | inl n ↦ rw n refl
    | inr (r, e) ↦ rw e (write_other r (writes m (reg.heap r)) e)
  ]

  -- A call that leaves the map and all objects but its own.
  Elsewhere-other :
      (r : ℕ) (t : Registry)
      → get id reg.jobs ≡ some r
      → t.jobs ≡ reg.jobs
      → Elsewhere reg r t
      → find other t ≡ find other reg
  Elsewhere-other r t at jobs elsewhere = elim (Option-cases (get other reg.jobs)) [
    | inl n ↦ rw (jobs, n) refl
    | inr (q, e) ↦ elim (Bool-cases (q == r)) [
      | inr x ↦ rw (jobs, e) (ap some (elsewhere q x))
      | inl x ↦
          let same : q ≡ r = (==_iff q r).0 x in absurd (d ((w id r at).1 other (e ∙ ap some same)))
    ]
  ]

  register_other : (meta : Meta) (now : ℕ) → find other (register id meta now reg) ≡ find other reg
  unfolding register write
  register_other meta now =
      let apart : str_eq id other ≡ false = elim (Bool-cases (str_eq id other)) [
        | inl q ↦ absurd (d ((eq_iff id other).0 q))
        | inr q ↦ q
      ] in
      elim (Option-cases (get other reg.jobs)) [
        | inl n ↦ rw (get-set, apart, n) refl
        | inr (q, e) ↦
            let old : (q == reg.next) ≡ false = ground (arith, (w other q e).0) in
            rw (get-set, apart, e) (rw old refl)
      ]

  delete_other : find other (delete_job id reg) ≡ find other reg
  unfolding delete_job
  delete_other =
      let apart : str_eq id other ≡ false = elim (Bool-cases (str_eq id other)) [
        | inl q ↦ absurd (d ((eq_iff id other).0 q))
        | inr q ↦ q
      ] in
      rw (get-delete, apart) refl

-- A write to a reference that another id cannot have.
owned_other :
    (reg : Registry) (id other : String) (r : ℕ) (j : JobState)
    → id ≢ other
    → Owns id r reg
    → find other (write r j reg) ≡ find other reg
unfolding write
owned_other reg id other r j d o = elim (Option-cases (get other reg.jobs)) [
  | inl n ↦ rw n refl
  | inr (q, e) ↦ elim (Bool-cases (q == r)) [
    | inr x ↦ rw (e, x) refl
    | inl x ↦ absurd (d (o.1 other (e ∙ ap some ((==_iff q r).0 x))))
  ]
]

-- In any run of the registry, what is done for one id leaves the job of every other id as it is: a
-- method that does not wait, a registration, a deletion, and a follow-up, a close or a steering up to
-- its await. So does the end of a follow-up or a close that found its job under this id, however much
-- later in the run it comes, also when the job was deleted or the id registered again meanwhile.
pub reachable_isolated :
    (reg : Registry) (id other : String)
    → Reach reg
    → id ≢ other
    → ((m : Method) → find other (call m id reg) ≡ find other reg)
      × ((meta : Meta) (now : ℕ) → find other (register id meta now reg) ≡ find other reg)
      × (find other (delete_job id reg) ≡ find other reg)
      × ((message : String) (r : ℕ) (t : Registry)
          → (follow_up_begin id message reg ≡ awaiting r t)
            ⊎ (close_session_begin id reg ≡ awaiting r t)
            ⊎ (steer_begin id message reg ≡ awaiting r t)
          → find other t ≡ find other reg)
      × ((r : ℕ) (then_on : Registry) (outcome : Outcome) (now : ℕ)
          → get id reg.jobs ≡ some r
          → Later reg then_on
          → (find other (follow_up_finish r outcome then_on) ≡ find other then_on)
            × (find other (close_session_finish r outcome now then_on) ≡ find other then_on))
unfolding follow_up_finish close_session_finish
reachable_isolated reg id other run d =
    let w = Reach-WellFormed run in
    (
      call_other reg w id other d,
      register_other reg w id other d,
      delete_other reg w id other d,
      λ message r t begun. elim begun [
        | inl h ↦
            let (at, jobs, _, elsewhere) = follow_up_frame id message reg t r h in
            Elsewhere-other reg w id other d r t at jobs elsewhere
        | inr (inl h) ↦
            let (at, jobs, _, elsewhere) = close_frame id reg t r h in
            Elsewhere-other reg w id other d r t at jobs elsewhere
        | inr (inr h) ↦
            let (at, jobs, _, elsewhere) = steer_frame id message reg t r h in
            Elsewhere-other reg w id other d r t at jobs elsewhere
      ],
      λ r then_on outcome now at run'.
          let o = Later-Owns id r run' (w id r at) in
          (
            owned_other then_on id other r (resumed_with outcome (then_on.heap r)) d o,
            owned_other then_on id other r (closed_with outcome now (then_on.heap r)) d o,
          ),
    )
