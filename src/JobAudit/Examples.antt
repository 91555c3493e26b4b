-- ===== src/JobAudit/Examples.antt =====
-- An audit of three jobs (src/specialist/dead-job-audit.ts).
use unit_ai_specialists.Common.{
  ℕ, ◌==◌, Bool, true, false, ◌≡◌, none, some, List, [], ◌∷◌, map, String, arith,
}
use unit_ai_specialists.Job.{JobStatus, running, waiting, done}
use unit_ai_specialists.JobAudit.{JobRow, is_stale, list_stale_specialist_jobs, audit_dead_jobs}
use unit_ai_specialists.JobAudit.Laws.{audit_cancels, dead_of, finding_of, cancel_named}
use unit_ai_specialists.JobAudit.Settled.{audit_settles}

abbrev row : String → JobStatus → ℕ → JobRow
row id status pid = record {
  job_id = id;
  specialist = "explorer";
  status = status;
  pid = some pid;
  updated_at_ms = 1000;
  bead_id = none;
  chain_id = none;
  cancelled_reason = none;
}

abbrev jobs : List JobRow
jobs = row "a" running 7 ∷ row "b" waiting 8 ∷ row "c" done 9 ∷ []

-- Only process 7 is there.
abbrev probe : ℕ → Bool
probe pid = pid == 7

audit_cancels_example :
    ((audit_dead_jobs probe true 90000 60000 jobs).table ≡ jobs)
    × ((audit_dead_jobs probe true 90000 60000 jobs).found
        ≡ map (finding_of 90000) (dead_of probe (list_stale_specialist_jobs 90000 60000 jobs)))
    × ((audit_dead_jobs probe false 90000 60000 jobs).found
        ≡ map (finding_of 90000) (dead_of probe (list_stale_specialist_jobs 90000 60000 jobs)))
    × ((audit_dead_jobs probe false 90000 60000 jobs).table
        ≡ cancel_named 90000 (dead_of probe (list_stale_specialist_jobs 90000 60000 jobs)) jobs)
audit_cancels_example = audit_cancels probe 90000 60000 jobs

audit_settles_example :
    (audit_dead_jobs probe false 90000 60000
      (audit_dead_jobs probe false 90000 60000 jobs).table).found
    ≡ []
unfolding is_stale
audit_settles_example = audit_settles probe 90000 60000 jobs (omega arith)
