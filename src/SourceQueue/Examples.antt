-- ===== src/SourceQueue/Examples.antt =====
-- Runs of the source queue at concrete inputs (src/specialist/source-queue.ts).
use unit_ai_specialists.Common.{◌≡◌, refl, some, true, false, String}
use unit_ai_specialists.SourceQueue.{
  Queue, empty, enqueue, fire, finish, Reach, here, enqueues, fires, WellFormed, queue-WellFormed,
  Runs, request-Runs,
}

-- A request arrives while the run of the one before is active.
abbrev busy : Queue
busy = enqueue "repo" (fire "repo" (enqueue "repo" empty))

set_first : (enqueue "repo" empty).timer ≡ some "repo"
unfolding enqueue
set_first = refl

ran : Reach busy
ran = enqueues "repo" (fires "repo" (enqueues "repo" here) set_first)

busy_queued : busy.queued ≡ true
unfolding enqueue fire
busy_queued = refl

queue-WellFormed_example : WellFormed busy
queue-WellFormed_example = queue-WellFormed busy ran

request-Runs_example :
    (busy.running ≡ true → Runs "repo" (finish "repo" busy))
    × (busy.running ≡ false → (x : String) × Runs x busy)
request-Runs_example = request-Runs busy "repo" ran busy_queued
