-- ===== src/SourceQueue.antt =====
-- `SourceQueue` of src/specialist/source-queue.ts. A step is what runs between two events: a call, the
-- timer, the end of a run. `timer` holds the run that the pending timer was set for, and `active` counts
-- the runs that have started and not ended.
mod Examples
use unit_ai_specialists.Common.{
  ℕ, ◌≡◌, refl, ap, Bool, true, false, not, ◌||◌, Option, none, some, List, [], ◌∷◌, ◌++◌, String,
  defined, length, if◌then◌else◌, arith, ◌<◌, ◌-◌, suc, ◌⊎◌, inl, inr, Bool-cases, Option-cases,
}

pub record Queue : Type 0 where
  pub running : Bool
  pub queued : Bool
  pub timer : Option String
  pub active : ℕ

abbrev pub empty : Queue
empty = record { running = false; queued = false; timer = none; active = 0 }

unfoldable pub enqueue : String → Queue → Queue
enqueue run q =
    let asked : Queue = record q { queued = true } in
    if q.running || defined q.timer then asked else record asked { timer = some run }

-- `drain` up to its await.
drain : String → Queue → Queue
drain run q =
    if not q.queued || q.running
    then q
    else record q { running = true; queued = false; active = suc q.active }

-- The timer fires.
unfoldable pub fire : String → Queue → Queue
unfolding drain
fire run q = drain run (record q { timer = none })

-- The rest of `drain`, once its run has ended or thrown.
unfoldable pub finish : String → Queue → Queue
unfolding enqueue
finish run q =
    let done : Queue = record q { running = false; active = q.active - 1 } in
    if q.queued then enqueue run done else done

unfoldable pub cancel : Queue → Queue
cancel q = record q { timer = none; queued = false }

pub data Reach : Queue → Type 0 where
  here : Reach empty
  enqueues : {q : Queue} (run : String) → Reach q → Reach (enqueue run q)
  fires : {q : Queue} (run : String) → Reach q → q.timer ≡ some run → Reach (fire run q)
  finishes : {q : Queue} (run : String) → Reach q → 0 < q.active → Reach (finish run q)
  cancels : {q : Queue} → Reach q → Reach (cancel q)

-- One run at most is active, and only when the flag says so; what is queued has a run or a timer to
-- wait for, and never both.
abbrev pub WellFormed : Queue → Type 0
WellFormed q =
    (q.active ≡ (if q.running then 1 else 0))
    × (q.queued ≡ true → (q.running || defined q.timer) ≡ true)
    × (defined q.timer ≡ true → (q.running ≡ false) × (q.queued ≡ true))

enqueue-WellFormed :
    (run : String) (q : Queue)
    → q.active ≡ (if q.running then 1 else 0)
    → (defined q.timer ≡ true → q.running ≡ false)
    → WellFormed (enqueue run q)
unfolding enqueue
enqueue-WellFormed run q one shut = elim (Bool-cases q.running) [
  | inl r ↦ rw r (rw r at one, (λ h. refl), (λ h. absurd (ground (arith, r, shut h))))
  | inr r ↦ elim (Option-cases q.timer) [
    | inl t ↦ rw (r, t) (rw r at one, (λ h. refl), (λ h. (refl, refl)))
    | inr (x, t) ↦ rw (r, t) (rw r at one, (λ h. refl), (λ h. (refl, refl)))
  ]
]

fire-WellFormed :
    (run x : String) (q : Queue) → q.timer ≡ some x → WellFormed q → WellFormed (fire run q)
unfolding fire drain
fire-WellFormed run x q t (one, served, shut) =
    let (idle, asked) = shut (rw t refl) in
    rw (idle, asked)
      (rw idle at (ap suc one), (λ h. absurd (ground arith)), (λ h. absurd (ground arith)))

finish-WellFormed :
    (run : String) (q : Queue) → 0 < q.active → WellFormed q → WellFormed (finish run q)
unfolding finish
finish-WellFormed run q some_active (one, served, shut) =
    let runs : q.running ≡ true = ground (arith, one, some_active) in
    let left : q.active - 1 ≡ 0 = ground (arith, one, some_active) in
    let no_timer : (defined q.timer ≡ true) → ⊥ = λ h. ground (arith, runs, (shut h).0) in
    elim (Bool-cases q.queued) [
      | inl a ↦ rw a (
          enqueue-WellFormed run (record q { running = false; active = q.active - 1 }) left
            (λ h. refl))
      | inr a ↦ rw a (left, (λ h. absurd (ground (arith, h))), (λ h. absurd (no_timer h)))
    ]

-- In every run of the queue at most one of its runs is active, and a queued request has an active run
-- or a timer to wait for, so that none is forgotten; the timer is set only while nothing runs.
pub queue-WellFormed : (q : Queue) → Reach q → WellFormed q
unfolding cancel
queue-WellFormed q here = (refl, (λ h. absurd (ground arith)), (λ h. absurd (ground arith)))
queue-WellFormed q (enqueues {q = p} run r) =
    let (one, served, shut) = queue-WellFormed p r in enqueue-WellFormed run p one (λ h. (shut h).0)
queue-WellFormed q (fires {q = p} run r t) = fire-WellFormed run run p t (queue-WellFormed p r)
queue-WellFormed q (finishes {q = p} run r a) = finish-WellFormed run p a (queue-WellFormed p r)
queue-WellFormed q (cancels {q = p} r) =
    ((queue-WellFormed p r).0, (λ h. absurd (ground arith)), (λ h. absurd (ground arith)))

-- The run for which a timer fires starts, and the request is no longer queued.
abbrev pub Runs : String → Queue → Type 0
Runs run q = (q.timer ≡ some run) × ((fire run q).active ≡ 1) × ((fire run q).queued ≡ false)

timer-Runs : (x : String) (q : Queue) → WellFormed q → q.timer ≡ some x → Runs x q
unfolding fire drain
timer-Runs x q (one, served, shut) t =
    let (idle, asked) = shut (rw t refl) in
    (t, rw (idle, asked) (rw idle at (ap suc one)), rw (idle, asked) refl)

finish-timer :
    (run : String) (q : Queue) → q.queued ≡ true → q.timer ≡ none → (finish run q).timer ≡ some run
unfolding finish enqueue
finish-timer run q a t = rw a (rw t refl)

-- A queued request is served next: when the active run ends, where there is one, a timer is set, and
-- when the timer fires a run starts for it.
pub request-Runs :
    (q : Queue) (run : String)
    → Reach q
    → q.queued ≡ true
    → (q.running ≡ true → Runs run (finish run q)) × (q.running ≡ false → (x : String) × Runs x q)
request-Runs q run r a =
    let w = queue-WellFormed q r in
    let (one, served, shut) = w in
    (
      λ b.
          let some_active : 0 < q.active = ground (arith, one, b) in
          timer-Runs run (finish run q) (finish-WellFormed run q some_active w) (
            finish-timer run q a (elim (Option-cases q.timer) [
              | inl t ↦ t
              | inr (x, t) ↦ absurd (ground (arith, b, (shut (rw t refl)).0))
            ])),
      λ b. elim (Option-cases q.timer) [
        | inl t ↦ absurd (ground (arith, served a, b, t))
        | inr (x, t) ↦ (x, timer-Runs x q w t)
      ],
    )
