-- ===== src/JobControl/Examples.antt =====
-- Runs of the wait for a terminal status at concrete inputs (src/specialist/job-control.ts).
use unit_ai_specialists.Common.{ℕ, ◌≡◌, refl, none, some}
use unit_ai_specialists.Job.{cancelled}
use unit_ai_specialists.JobControl.{Look, wait_for_terminal, out_of_fuel, cancelled_waits}

-- A job that was cancelled, on a clock that moves a millisecond a round.
abbrev stays_cancelled : ℕ → Look
stays_cancelled i = record { status = some cancelled; now = i }

cancelled_waits_example : wait_for_terminal none stays_cancelled 1000 0 ≡ out_of_fuel
cancelled_waits_example = cancelled_waits none stays_cancelled 1000 0 refl (λ j. refl)
