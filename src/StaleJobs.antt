-- ===== src/StaleJobs.antt =====
-- `collectStaleSpecialistJobs` of src/specialist/process-health.ts: the jobs that a clean-up may end.
-- What /proc says of a process id, the last activity of a job and the statuses are arguments; times
-- are whole milliseconds. The command line of a process is the list of its code units.
pub mod Commands
pub mod Laws
mod Examples
use unit_ai_specialists.Common.{
  ℕ, ◌+◌, ◌-◌, ltb, leb, ◌==◌, Bool, true, false, not, ◌&&◌, ◌||◌, Option, none, some, List, [],
  ◌∷◌, ◌++◌, String, filter, if◌then◌else◌,
}
use unit_ai_specialists.Common.Sorting.{sort_by}
use unit_ai_specialists.Job.{JobStatus, starting, running, waiting, done, error, cancelled}
use unit_ai_specialists.StaleJobs.Commands.{is_specialist_run_command, spaced}

pub record StatusRow : Type 0 where
  pub id : String
  pub specialist : String
  pub status : JobStatus
  pub pid : Option ℕ
  pub updated_at_ms : Option ℕ
  pub bead_id : Option String

pub record Snapshot : Type 0 where
  pub ppid : ℕ
  pub cmdline : List ℕ
  pub cwd : Option String

-- What can be read of a process: a whole snapshot or its parts, and whether it answers a signal.
pub record Process : Type 0 where
  pub snapshot : Option Snapshot
  pub is_dead : Bool
  pub raw_ppid : Option ℕ
  pub raw_cmdline : Option (List ℕ)
  pub raw_cwd : Option String

pub data StaleReason : Type 0 where
  dead_pid orphaned_keep_alive dead_toolchain terminal_alive : StaleReason

pub record Candidate : Type 0 where
  pub job_id : String
  pub pid : ℕ
  pub bead_id : Option String
  pub specialist : String
  pub cwd : Option String
  pub age_ms : ℕ
  pub reason : StaleReason

abbrev pub is_active_status : JobStatus → Bool
is_active_status starting = true
is_active_status running = true
is_active_status waiting = true
is_active_status _ = false

abbrev pub is_terminal_status : JobStatus → Bool
is_terminal_status s = not (is_active_status s)

abbrev pub is_waiting_status : JobStatus → Bool
is_waiting_status waiting = true
is_waiting_status _ = false

abbrev pub is_starting_status : JobStatus → Bool
is_starting_status starting = true
is_starting_status _ = false

abbrev pub or_number : Option ℕ → ℕ → ℕ
or_number none n = n
or_number (some m) n = m

-- `Math.max(0, nowMs - (updated_at_ms ?? nowMs))`.
abbrev pub age_of : ℕ → StatusRow → ℕ
age_of now row = now - or_number row.updated_at_ms now

unfoldable pub candidate : StatusRow → ℕ → Option String → ℕ → StaleReason → Candidate
candidate row pid cwd age reason = record {
  job_id = row.id;
  pid = pid;
  bead_id = row.bead_id;
  specialist = row.specialist;
  cwd = cwd;
  age_ms = age;
  reason = reason;
}

-- A run whose parent is the first process, from the parts of a process that could be read.
abbrev pub orphaned_parts : Option ℕ → Option (List ℕ) → Bool
orphaned_parts (some ppid) (some (c ∷ cs)) =
    ppid == 1 && is_specialist_run_command (spaced (c ∷ cs))
orphaned_parts _ _ = false

abbrev pub orphaned_run : Snapshot → Bool
orphaned_run s = s.ppid == 1 && is_specialist_run_command s.cmdline

-- `nowMs - lastActivityMs < minKeepAliveAgeMs`, of an activity that is known.
abbrev pub is_recent : ℕ → ℕ → Option ℕ → Bool
is_recent now min_age none = false
is_recent now min_age (some at_ms) = ltb now (at_ms + min_age)

abbrev pub only_if : Bool → Candidate → Option Candidate
only_if b c = if b then some c else none

unfoldable pub judge_unread : ℕ → ℕ → StatusRow → ℕ → Process → Option Candidate
judge_unread now min_age row pid p =
    if p.is_dead && leb min_age (age_of now row)
    then some (candidate row pid none (age_of now row) dead_pid)
    else only_if (is_waiting_status row.status && orphaned_parts p.raw_ppid p.raw_cmdline)
        (candidate row pid p.raw_cwd (age_of now row) orphaned_keep_alive)

unfoldable pub judge_snapshot : ℕ → ℕ → Option ℕ → StatusRow → ℕ → Snapshot → Option Candidate
judge_snapshot now min_age last_activity row pid s =
    if is_waiting_status row.status && orphaned_run s && leb min_age (age_of now row)
    then some (candidate row pid s.cwd (age_of now row) orphaned_keep_alive)
    else only_if
        (not (is_starting_status row.status)
          && leb min_age (age_of now row)
          && not (is_recent now min_age last_activity))
        (candidate row pid s.cwd (age_of now row) dead_toolchain)

abbrev pub judge_process :
    ℕ → ℕ → Option ℕ → StatusRow → ℕ → Process → Option Snapshot → Option Candidate
judge_process now min_age last_activity row pid p none = judge_unread now min_age row pid p
judge_process now min_age last_activity row pid p (some s) =
    judge_snapshot now min_age last_activity row pid s

-- A row without a positive process id is passed over.
unfoldable pub judge_active :
    ℕ → ℕ → (ℕ → Process) → (String → Option ℕ) → StatusRow → Option ℕ → Option Candidate
unfolding judge_unread judge_snapshot
judge_active now min_age proc activity row none = none
judge_active now min_age proc activity row (some pid) =
    if ltb 0 pid
    then judge_process now min_age (activity row.id) row pid (proc pid) (proc pid).snapshot
    else none

abbrev pub judge_ended : ℕ → StatusRow → ℕ → Process → Option Snapshot → Option Candidate
judge_ended now row pid p none =
    only_if (not p.is_dead) (candidate row pid p.raw_cwd (age_of now row) terminal_alive)
judge_ended now row pid p (some s) = some (candidate row pid s.cwd (age_of now row) terminal_alive)

unfoldable pub judge_terminal : ℕ → ℕ → (ℕ → Process) → StatusRow → Option ℕ → Option Candidate
judge_terminal now min_age proc row none = none
judge_terminal now min_age proc row (some pid) =
    if ltb 0 pid && leb min_age (age_of now row)
    then judge_ended now row pid (proc pid) (proc pid).snapshot
    else none

abbrev pub push_some : Option Candidate → List Candidate → List Candidate
push_some none rest = rest
push_some (some c) rest = c ∷ rest

unfoldable pub collect_active :
    ℕ → ℕ → (ℕ → Process) → (String → Option ℕ) → List StatusRow → List Candidate
collect_active now min_age proc activity [] = []
collect_active now min_age proc activity (row ∷ rows) =
    push_some (judge_active now min_age proc activity row row.pid)
      (collect_active now min_age proc activity rows)

unfoldable pub collect_terminal : ℕ → ℕ → (ℕ → Process) → List StatusRow → List Candidate
collect_terminal now min_age proc [] = []
collect_terminal now min_age proc (row ∷ rows) =
    push_some (judge_terminal now min_age proc row row.pid) (collect_terminal now min_age proc rows)

unfoldable pub collect_stale_specialist_jobs :
    ℕ → ℕ → ℕ → (ℕ → Process) → (String → Option ℕ) → List StatusRow → List Candidate
unfolding collect_active collect_terminal
collect_stale_specialist_jobs now min_keep_alive min_terminal proc activity statuses =
    sort_by (λ c. c.pid)
      (collect_active now min_keep_alive proc activity
          (filter (λ r. is_active_status r.status) statuses)
        ++ collect_terminal now min_terminal proc
            (filter (λ r. is_terminal_status r.status) statuses))
