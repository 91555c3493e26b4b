-- ===== src/JobRegistry/Runs.antt =====
-- The runs of src/specialist/jobRegistry.ts, each asynchronous method in two steps: no two ids share a
-- job object, and a reference that was given out is not given to another id.
use unit_ai_specialists.Common.{
  ℕ, ◌<◌, ◌≡◌, sym, ◌∙◌, inl, inr, none, some, [], String, str_eq, eq_iff, if◌then◌else◌, arith,
  Bool-cases,
}
use unit_ai_specialists.Common.Dict.{get, delete, get-set, get-delete}
use unit_ai_specialists.JobRegistry.{
  JobState, Registry, write, Method, call, register, delete_job, Meta,
}
use unit_ai_specialists.JobRegistry.Sessions.{
  awaiting, Outcome, follow_up_begin, follow_up_finish, close_session_begin, close_session_finish,
  steer_begin,
}
use unit_ai_specialists.JobRegistry.Sessions.Frames.{
  call_frame, follow_up_frame, close_frame, steer_frame,
}

-- Every listed reference is below the next one, and is listed once.
abbrev pub WellFormed : Registry → Type 0
WellFormed reg =
    (i : String) (r : ℕ)
    → get i reg.jobs ≡ some r
    → (r < reg.next) × ((j : String) → get j reg.jobs ≡ some r → i ≡ j)

pub data Step : Registry → Registry → Type 0 where
  registers :
      (id : String) (meta : Meta) (now : ℕ) (reg : Registry) → Step reg (register id meta now reg)
  calls : (m : Method) (id : String) (reg : Registry) → Step reg (call m id reg)
  follows :
      {reg t : Registry} (id message : String) (r : ℕ)
      → follow_up_begin id message reg ≡ awaiting r t
      → Step reg t
  followed :
      (r : ℕ) (outcome : Outcome) (reg : Registry) → Step reg (follow_up_finish r outcome reg)
  closes :
      {reg t : Registry} (id : String) (r : ℕ)
      → close_session_begin id reg ≡ awaiting r t
      → Step reg t
  closed_ :
      (r : ℕ) (outcome : Outcome) (now : ℕ) (reg : Registry)
      → Step reg (close_session_finish r outcome now reg)
  steers :
      {reg t : Registry} (id message : String) (r : ℕ)
      → steer_begin id message reg ≡ awaiting r t
      → Step reg t
  deletes : (id : String) (reg : Registry) → Step reg (delete_job id reg)

abbrev pub empty : (ℕ → JobState) → Registry
empty heap = record { jobs = []; heap = heap; next = 0; calls = [] }

pub data Reach : Registry → Type 0 where
  here : (heap : ℕ → JobState) → Reach (empty heap)
  next : {s t : Registry} → Reach s → Step s t → Reach t

WellFormed-same : (s t : Registry) → t.jobs ≡ s.jobs → t.next ≡ s.next → WellFormed s → WellFormed t
WellFormed-same s t e n w = rw (e, n) w

WellFormed-register :
    (id : String) (meta : Meta) (now : ℕ) (reg : Registry)
    → WellFormed reg
    → WellFormed (register id meta now reg)
unfolding register write
WellFormed-register id meta now reg w i r h =
    let was : (if str_eq id i then some reg.next else get i reg.jobs) ≡ some r =
      sym (get-set i id reg.next reg.jobs) ∙ h in
    (
      elim (Bool-cases (str_eq id i)) [
        | inl q ↦ ground (arith, was, q)
        | inr q ↦ let old : get i reg.jobs ≡ some r = (rw q at was) in omega (arith, (w i r old).0)
      ],
      λ j g.
          let also : (if str_eq id j then some reg.next else get j reg.jobs) ≡ some r =
            sym (get-set j id reg.next reg.jobs) ∙ g in
          elim (Bool-cases (str_eq id i)) [
            | inl q ↦ elim (Bool-cases (str_eq id j)) [
              | inl p ↦ sym ((eq_iff id i).0 q) ∙ (eq_iff id j).0 p
              | inr p ↦
                  let old : get j reg.jobs ≡ some r = (rw p at also) in
                  absurd (ground (arith, was, q, (w j r old).0))
            ]
            | inr q ↦
                let old : get i reg.jobs ≡ some r = (rw q at was) in
                elim (Bool-cases (str_eq id j)) [
                  | inl p ↦ absurd (ground (arith, also, p, (w i r old).0))
                  | inr p ↦ (w i r old).1 j (rw p at also)
                ]
          ],
    )

WellFormed-delete : (id : String) (reg : Registry) → WellFormed reg → WellFormed (delete_job id reg)
unfolding delete_job
WellFormed-delete id reg w i r h =
    let listed : (k : String) → get k (delete id reg.jobs) ≡ some r → get k reg.jobs ≡ some r =
      λ k g.
        let was : (if str_eq id k then none else get k reg.jobs) ≡ some r =
          sym (get-delete k id reg.jobs) ∙ g in
        elim (Bool-cases (str_eq id k)) [
          | inl q ↦ absurd (ground (arith, was, q))
          | inr q ↦ rw q at was
        ] in
    let (below, once) = w i r (listed i h) in (below, λ j g. once j (listed j g))

Step-WellFormed : {s t : Registry} → Step s t → WellFormed s → WellFormed t
unfolding follow_up_finish close_session_finish write
Step-WellFormed (registers id meta now reg) w = WellFormed-register id meta now reg w
Step-WellFormed (calls m id reg) w =
    let (jobs, fresh) = call_frame m id reg in WellFormed-same reg (call m id reg) jobs fresh w
Step-WellFormed {s} {t} (follows id message r h) w =
    let (at, jobs, fresh, _) = follow_up_frame id message s t r h in
    WellFormed-same s t jobs fresh w
Step-WellFormed (followed r outcome reg) w = w
Step-WellFormed {s} {t} (closes id r h) w =
    let (at, jobs, fresh, _) = close_frame id s t r h in WellFormed-same s t jobs fresh w
Step-WellFormed (closed_ r outcome now reg) w = w
Step-WellFormed {s} {t} (steers id message r h) w =
    let (at, jobs, fresh, _) = steer_frame id message s t r h in WellFormed-same s t jobs fresh w
Step-WellFormed (deletes id reg) w = WellFormed-delete id reg w

pub Reach-WellFormed : {reg : Registry} → Reach reg → WellFormed reg
Reach-WellFormed (here heap) = λ i r h. absurd (unfold get in ground arith)
Reach-WellFormed (next run step) = Step-WellFormed step (Reach-WellFormed run)

-- A later registry of the same run.
pub data Later (s : Registry) : Registry → Type 0 where
  now_at : Later s s
  later : {t u : Registry} → Later s t → Step t u → Later s u

-- No id but this one can have this reference, which was given out.
abbrev pub Owns : String → ℕ → Registry → Type 0
Owns id r reg = (r < reg.next) × ((j : String) → get j reg.jobs ≡ some r → id ≡ j)

Owns-same :
    (id : String) (r : ℕ) (s t : Registry)
    → t.jobs ≡ s.jobs
    → t.next ≡ s.next
    → Owns id r s
    → Owns id r t
Owns-same id r s t e n o = rw (e, n) o

Step-Owns : {s t : Registry} (id : String) (r : ℕ) → Step s t → Owns id r s → Owns id r t
unfolding follow_up_finish close_session_finish write register delete_job
Step-Owns own r (registers id meta now reg) o = (
  omega (arith, o.0),
  λ j g.
      let was : (if str_eq id j then some reg.next else get j reg.jobs) ≡ some r =
        sym (get-set j id reg.next reg.jobs) ∙ g in
      elim (Bool-cases (str_eq id j)) [
        | inl q ↦ absurd (ground (arith, was, q, o.0))
        | inr q ↦ o.1 j (rw q at was)
      ],
)
Step-Owns own r (calls m id reg) o =
    let (jobs, fresh) = call_frame m id reg in Owns-same own r reg (call m id reg) jobs fresh o
Step-Owns {s} {t} own r (follows id message q h) o =
    let (at, jobs, fresh, _) = follow_up_frame id message s t q h in
    Owns-same own r s t jobs fresh o
Step-Owns own r (followed q outcome reg) o = o
Step-Owns {s} {t} own r (closes id q h) o =
    let (at, jobs, fresh, _) = close_frame id s t q h in Owns-same own r s t jobs fresh o
Step-Owns own r (closed_ q outcome now reg) o = o
Step-Owns {s} {t} own r (steers id message q h) o =
    let (at, jobs, fresh, _) = steer_frame id message s t q h in Owns-same own r s t jobs fresh o
Step-Owns own r (deletes id reg) o = (
  o.0,
  λ j g.
      let was : (if str_eq id j then none else get j reg.jobs) ≡ some r =
        sym (get-delete j id reg.jobs) ∙ g in
      elim (Bool-cases (str_eq id j)) [
        | inl q ↦ absurd (ground (arith, was, q))
        | inr q ↦ o.1 j (rw q at was)
      ],
)

pub Later-Owns : {s t : Registry} (id : String) (r : ℕ) → Later s t → Owns id r s → Owns id r t
Later-Owns id r now_at o = o
Later-Owns id r (later run step) o = Step-Owns id r step (Later-Owns id r run o)
