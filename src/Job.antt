-- ===== src/Job.antt =====
-- The status row of a job, src/specialist/supervisor.ts: the fields that the modelled code reads.
use unit_ai_specialists.Common.{
  ℕ, ltb, Bool, true, false, not, ◌&&◌, ◌||◌, Option, none, some, String, truthy,
}

pub data JobStatus : Type 0 where
  starting running waiting done error cancelled : JobStatus

pub data ChainKind : Type 0 where
  chain prep : ChainKind

pub record SupervisorStatus : Type 0 where
  pub id : String
  pub specialist : String
  pub status : JobStatus
  pub pid : Option ℕ
  pub started_at_ms : ℕ
  pub last_event_at_ms : Option ℕ
  pub error : Option String
  pub bead_id : Option String
  pub node_id : Option String
  pub epic_id : Option String
  pub chain_kind : Option ChainKind
  pub chain_id : Option String
  pub chain_root_job_id : Option String
  pub chain_root_bead_id : Option String
  pub trace_id : Option String
  pub span_id : Option String
  pub parent_span_id : Option String
  pub worktree_path : Option String
  pub worktree_owner_job_id : Option String
  pub tmux_session : Option String

-- `ACTIVE_JOB_STATUSES` of the epic modules.
abbrev pub is_active : JobStatus → Bool
is_active starting = true
is_active running = true
is_active waiting = true
is_active done = false
is_active error = false
is_active cancelled = false

-- `TERMINAL_JOB_STATUSES` of epic-readiness.ts: a cancelled job is not among them.
abbrev pub is_terminal : JobStatus → Bool
is_terminal done = true
is_terminal error = true
is_terminal _ = false

abbrev pub is_chain_kind : Option ChainKind → Bool
is_chain_kind (some chain) = true
is_chain_kind _ = false

-- What the host answers about a process and a tmux session.
pub record HostProbe : Type 0 where
  pub signal : ℕ → Bool
  pub session_alive : String → Bool

module _ (host : HostProbe) where
  unfoldable pub is_pid_alive : ℕ → Bool
  is_pid_alive pid = ltb 0 pid && host.signal pid

  abbrev pid_dead : Option ℕ → Bool
  pid_dead none = false
  pid_dead (some pid) = not (is_pid_alive pid)

  abbrev session_dead : Option String → Bool
  session_dead none = false
  session_dead (some s) = truthy (some s) && not (host.session_alive s)

  unfoldable pub is_job_dead : SupervisorStatus → Bool
  is_job_dead s = is_active s.status && (pid_dead s.pid || session_dead s.tmux_session)
