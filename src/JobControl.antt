-- ===== src/JobControl.antt =====
-- `waitForTerminal` of src/specialist/job-control.ts: a loop on fuel over what each round reads. How long
-- a round sleeps is in the clock of the next one.
mod Examples
use unit_ai_specialists.Common.{
  ℕ, zero, suc, ◌+◌, ◌-◌, ◌≤◌, ◌<◌, leb, leb→le, ◌≡◌, refl, ◌⊎◌, inl, inr, Bool, true, false,
  Option, none, some, if◌then◌else◌, arith, Bool-cases, Option-cases,
}
use unit_ai_specialists.Job.{JobStatus, cancelled}

-- `TERMINAL_STATUSES`: done, error, and a status that no job has.
abbrev pub is_terminal_status : JobStatus → Bool
is_terminal_status JobStatus.done = true
is_terminal_status JobStatus.error = true
is_terminal_status _ = false

-- What one round reads: the status of the job, and the clock.
pub record Look : Type 0 where
  pub status : Option JobStatus
  pub now : ℕ

pub data Waited : Type 0 where
  terminal : JobStatus → Waited
  no_job timed_out out_of_fuel : Waited

-- The deadline, when a timeout was given.
abbrev pub is_past : Option ℕ → ℕ → Bool
is_past none now = false
is_past (some deadline) now = leb deadline now

module _ (deadline : Option ℕ) (look : ℕ → Look) where
  unfoldable pub wait_for_terminal : ℕ → ℕ → Waited
  wait_for_terminal zero i = out_of_fuel
  wait_for_terminal (suc fuel) i =
      let again = wait_for_terminal fuel (suc i) in
      elim (look i).status [
        | none ↦ no_job
        | some status ↦
            if is_terminal_status status
            then terminal status
            else if is_past deadline (look i).now
            then timed_out
            else again
      ]

  -- What the result says of the rounds that were made.
  abbrev pub Explains : ℕ → Waited → Type 0
  Explains i (terminal s) =
      (j : ℕ) × (i ≤ j) × ((look j).status ≡ some s) × (is_terminal_status s ≡ true)
  Explains i no_job = (j : ℕ) × (i ≤ j) × ((look j).status ≡ none)
  Explains i timed_out =
      (j : ℕ) × (s : JobStatus) × (i ≤ j)
      × ((look j).status ≡ some s)
      × (is_terminal_status s ≡ false)
      × (is_past deadline (look j).now ≡ true)
  Explains i out_of_fuel = ⊥

  later : (i : ℕ) (w : Waited) → Explains (suc i) w → Explains i w
  later i (terminal s) h = let (j, l, e, t) = h in (j, omega arith, e, t)
  later i no_job h = let (j, l, e) = h in (j, omega arith, e)
  later i timed_out h = let (j, s, l, e, t, p) = h in (j, s, omega arith, e, t, p)
  later i out_of_fuel h = h

  -- One round, whatever the rest gives.
  round-Explains :
      (fuel i : ℕ)
      → ((s : JobStatus)
          → (look i).status ≡ some s
          → is_past deadline (look i).now ≡ false
          → Explains (suc i) (wait_for_terminal fuel (suc i)))
      → Explains i (wait_for_terminal (suc fuel) i)
  unfolding wait_for_terminal
  round-Explains fuel i rest = elim (Option-cases (look i).status) [
    | inl e ↦ rw (e, wait_for_terminal) (i, omega arith, e)
    | inr (s, e) ↦ elim (Bool-cases (is_terminal_status s)) [
      | inl t ↦ rw (e, t, wait_for_terminal) (i, omega arith, e, t)
      | inr t ↦ elim (Bool-cases (is_past deadline (look i).now)) [
        | inl p ↦ rw (e, t, p, wait_for_terminal) (i, s, omega arith, e, t, p)
        | inr p ↦
            rw (e, t, p, wait_for_terminal) (later i (wait_for_terminal fuel (suc i)) (rest s e p))
      ]
    ]
  ]

  -- Each round sleeps for at least a millisecond.
  abbrev pub Ticks : Type 0
  Ticks = (i : ℕ) → (look i).now < (look (suc i)).now

  -- A wait without a timeout never ends for a job that is cancelled, since that status is not among
  -- the terminal ones.
  pub cancelled_waits :
      (fuel i : ℕ)
      → deadline ≡ none
      → ((j : ℕ) → (look j).status ≡ some cancelled)
      → wait_for_terminal fuel i ≡ out_of_fuel
  unfolding wait_for_terminal
  cancelled_waits zero i d c = refl
  cancelled_waits (suc fuel) i d c =
      rw (c i, d, wait_for_terminal) (cancelled_waits fuel (suc i) d c)

-- A wait with a timeout ends, given more fuel than milliseconds to the deadline: with a terminal
-- status that a round read, because a round found no job, or past the deadline in a round that read
-- no terminal status.
pub wait_total :
    (deadline : ℕ) (look : ℕ → Look) (fuel i : ℕ)
    → Ticks (some deadline) look
    → deadline - (look i).now < fuel
    → Explains (some deadline) look i (wait_for_terminal (some deadline) look fuel i)
wait_total deadline look zero i ticks h = elim h [ ]
wait_total deadline look (suc fuel) i ticks h =
    round-Explains (some deadline) look fuel i
      (λ s e p. wait_total deadline look fuel (suc i) ticks (ground (arith, ticks i, p)))
