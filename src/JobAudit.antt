-- ===== src/JobAudit.antt =====
-- src/specialist/dead-job-audit.ts and what it uses of src/specialist/observability-sqlite.ts: the
-- audit that cancels the jobs whose process is gone. The table is the list of its rows, and the
-- probe of a process is an argument that answers the same throughout one audit.
pub mod Laws
pub mod Settled
mod Examples
use unit_ai_specialists.Common.{
  ℕ, zero, suc, ◌+◌, ◌-◌, ltb, Bool, true, false, not, ◌&&◌, Option, none, some, List, [], ◌∷◌,
  ◌++◌, map, String, str_eq, filter, if◌then◌else◌,
}
use unit_ai_specialists.Common.Sorting.{sort_by}
use unit_ai_specialists.Job.{JobStatus, starting, running, waiting, done, error, cancelled}

-- A row of specialist_jobs, with the fields of its JSON that the audit reads and writes.
pub record JobRow : Type 0 where
  pub job_id : String
  pub specialist : String
  pub status : JobStatus
  pub pid : Option ℕ
  pub updated_at_ms : ℕ
  pub bead_id : Option String
  pub chain_id : Option String
  pub cancelled_reason : Option String

abbrev pub is_live : JobStatus → Bool
is_live starting = true
is_live running = true
is_live waiting = true
is_live _ = false

abbrev pub has_pid : Option ℕ → Bool
has_pid none = false
has_pid (some pid) = true

abbrev pub pid_of : Option ℕ → ℕ
pid_of none = 0
pid_of (some pid) = pid

-- The WHERE clause; `updated_at_ms < nowMs - minAgeMs`, where the right side may be negative.
unfoldable pub is_stale : ℕ → ℕ → JobRow → Bool
is_stale now min_age row =
    is_live row.status && has_pid row.pid && ltb (row.updated_at_ms + min_age) now

abbrev pub take : ℕ → List JobRow → List JobRow
take zero rows = []
take (suc n) [] = []
take (suc n) (row ∷ rows) = row ∷ take n rows

abbrev pub positive_pid : JobRow → Bool
positive_pid row = ltb 0 (pid_of row.pid)

unfoldable pub list_stale_specialist_jobs : ℕ → ℕ → List JobRow → List JobRow
unfolding is_stale
list_stale_specialist_jobs now min_age table =
    filter positive_pid
      (take 200 (sort_by (λ row. row.updated_at_ms) (filter (is_stale now min_age) table)))

-- The clock of the write stands at the time of the audit.
abbrev pub cancel_row : ℕ → String → JobRow → JobRow
cancel_row now reason row = record row {
  status = cancelled;
  cancelled_reason = some reason;
  updated_at_ms = now;
}

unfoldable pub mark_specialist_job_cancelled : ℕ → String → String → List JobRow → List JobRow
mark_specialist_job_cancelled now job reason table =
    map (λ row. if str_eq row.job_id job then cancel_row now reason row else row) table

pub record DeadJobAuditFinding : Type 0 where
  pub job_id : String
  pub pid : ℕ
  pub reason : String
  pub age_ms : ℕ

pub record AuditState : Type 0 where
  pub table : List JobRow
  pub found : List DeadJobAuditFinding
  pub cancelled_count : ℕ
  -- The jobs for which `dead_declared` was written.
  pub declared : List String

unfoldable pub declare_dead : Bool → ℕ → JobRow → AuditState → AuditState
unfolding mark_specialist_job_cancelled
declare_dead dry_run now row a =
    let finding : DeadJobAuditFinding = record {
      job_id = row.job_id;
      pid = pid_of row.pid;
      reason = "container-restart-orphan";
      age_ms = now - row.updated_at_ms;
    } in
    let noted = record a { found = a.found ++ finding ∷ [] } in
    if dry_run then noted else record noted {
      table = mark_specialist_job_cancelled now row.job_id "container-restart-orphan" a.table;
      cancelled_count = suc a.cancelled_count;
      declared = a.declared ++ row.job_id ∷ [];
    }

-- One round; `alive` is what the probe of the row's process says.
unfoldable pub audit_row : Bool → Bool → ℕ → JobRow → AuditState → AuditState
unfolding declare_dead
audit_row alive dry_run now row a = if alive then a else declare_dead dry_run now row a

unfoldable pub audit_rows : (ℕ → Bool) → Bool → ℕ → List JobRow → AuditState → AuditState
audit_rows is_pid_alive dry_run now [] a = a
audit_rows is_pid_alive dry_run now (row ∷ rows) a =
    audit_rows is_pid_alive dry_run now rows
      (audit_row (is_pid_alive (pid_of row.pid)) dry_run now row a)

unfoldable pub audit_dead_jobs : (ℕ → Bool) → Bool → ℕ → ℕ → List JobRow → AuditState
unfolding audit_row audit_rows list_stale_specialist_jobs
audit_dead_jobs is_pid_alive dry_run now min_age table =
    audit_rows is_pid_alive dry_run now (list_stale_specialist_jobs now min_age table)
      (record { table = table; found = []; cancelled_count = 0; declared = [] })
