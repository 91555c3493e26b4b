-- ===== src/StaleJobs/Examples.antt =====
-- A report over two jobs (src/specialist/process-health.ts).
use unit_ai_specialists.Common.{◌==◌, true, false, none, some, List, [], ◌∷◌, All, if◌then◌else◌}
use unit_ai_specialists.Common.Sorting.{SortedBy}
use unit_ai_specialists.Job.{running, done}
use unit_ai_specialists.StaleJobs.{StatusRow, Process, collect_stale_specialist_jobs}
use unit_ai_specialists.StaleJobs.Laws.{Reported, stale-Reported}

abbrev gone : Process
gone = record {
  snapshot = none;
  is_dead = true;
  raw_ppid = none;
  raw_cmdline = none;
  raw_cwd = none;
}

abbrev there : Process
there = record gone {
  snapshot = some (record { ppid = 2; cmdline = 112 ∷ 105 ∷ []; cwd = some "/repo" });
  is_dead = false;
}

abbrev rows : List StatusRow
rows =
    record {
      id = "a";
      specialist = "explorer";
      status = running;
      pid = some 9;
      updated_at_ms = some 1000;
      bead_id = none;
    }
    ∷ record {
      id = "b";
      specialist = "executor";
      status = done;
      pid = some 7;
      updated_at_ms = some 1000;
      bead_id = none;
    }
    ∷ []

stale-Reported_example :
    (let report =
        collect_stale_specialist_jobs 5000000 1800000 60000
          (λ pid. if pid == 9 then gone else there)
          (λ _. none)
          rows in
      SortedBy (λ c. c.pid) report
      × All
          (Reported 5000000 1800000 60000
            (λ pid. if pid == 9 then gone else there)
            (λ _. none)
            rows)
          report)
stale-Reported_example =
    stale-Reported 5000000 1800000 60000 (λ pid. if pid == 9 then gone else there) (λ _. none) rows
