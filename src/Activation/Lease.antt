-- ===== src/Activation/Lease.antt =====
-- src/activation/workspace-lease.ts: the writer lease of a workspace. The lease records are files;
-- the store maps the path of a record to what a reader finds there. The texts of refusals are left
-- out, but for what they are made from.
pub mod Admission
pub mod Safety
use unit_ai_specialists.Common.{
  ℕ, ◌==◌, Bool, true, false, not, ◌≡◌, Option, none, some, List, [], ◌∷◌, map, String, str_eq,
  if◌then◌else◌,
}
use unit_ai_specialists.Common.Dict.{Dict, get, set, delete, has}

pub record WorkspaceIdentity : Type 0 where
  pub repository_root : String
  pub worktree_path : String
  pub git_common_dir : Option String

pub record HolderProcess : Type 0 where
  pub pid : ℕ
  pub start_ticks : ℕ

pub record WorkspaceLease : Type 0 where
  pub workspace_key : String
  pub worktree_path : String
  pub activation_id : String
  pub attempt_id : String
  pub specialist : Option String
  pub holder : HolderProcess
  pub acquired_at_ms : ℕ

-- A record that does not parse, or has no holder pid, is unreadable.
pub data LeaseFile : Type 0 where
  unreadable : LeaseFile
  lease_file : WorkspaceLease → LeaseFile

abbrev pub Files : Type 0
Files = Dict LeaseFile

pub data UncertainReason : Type 0 where
  holder_process_gone holder_start_mismatch liveness_unverifiable unreadable_record :
      UncertainReason

-- `LeaseStatus`: each state with the fields that it carries.
pub data LeaseStatus : Type 0 where
  free : LeaseStatus
  held : WorkspaceLease → LeaseStatus
  uncertain : Option WorkspaceLease → UncertainReason → LeaseStatus

-- What the machine answers: the path of a lease record, made from a hash of the resolved worktree
-- path, the probe of processes, this process's pid, and the clock.
pub record LeaseHost : Type 0 where
  pub workspace_key : WorkspaceIdentity → String
  pub lease_path : WorkspaceIdentity → String
  pub can_verify : Bool
  pub start_ticks : ℕ → Option ℕ
  pub self_pid : ℕ
  pub now : ℕ

pub record AcquireRequest : Type 0 where
  pub workspace : WorkspaceIdentity
  pub activation_id : String
  pub attempt_id : String
  pub specialist : Option String

pub data LeaseError : Type 0 where
  workspace_held_by_another_writer : LeaseStatus → LeaseError
  workspace_lease_uncertain : LeaseStatus → LeaseError
  workspace_lease_not_held_by_caller : LeaseStatus → LeaseError
  no_reuse_guard : LeaseError

-- What a call returns or throws, with the files that it leaves.
pub data Result (A : Type 0) : Type 0 where
  returned : A → Files → Result A
  thrown : LeaseError → Files → Result A

abbrev pub files_of : {A : Type 0} → Result A → Files
files_of (returned a fs) = fs
files_of (thrown e fs) = fs

module _ (host : LeaseHost) where
  open host use {workspace_key, lease_path, can_verify, start_ticks, self_pid, now}

  -- The verdict of the probe on the recorded holder.
  judge_ticks : WorkspaceLease → Option ℕ → LeaseStatus
  judge_ticks l none = uncertain (some l) holder_process_gone
  judge_ticks l (some actual) =
      if not (actual == l.holder.start_ticks)
      then uncertain (some l) holder_start_mismatch
      else held l

  judge_file : Option LeaseFile → LeaseStatus
  unfolding judge_ticks
  judge_file none = free
  judge_file (some unreadable) = uncertain none unreadable_record
  judge_file (some (lease_file l)) =
      if not can_verify
      then uncertain (some l) liveness_unverifiable
      else judge_ticks l (start_ticks l.holder.pid)

  unfoldable pub inspect : Files → WorkspaceIdentity → LeaseStatus
  unfolding judge_file
  inspect fs ws = judge_file (get (lease_path ws) fs)

  -- `linkSync`: the record is published only where there is none. `other` is what the files are by
  -- then: other processes may have written since the inspection.
  publish : AcquireRequest → Files → HolderProcess → Result WorkspaceLease
  unfolding inspect
  publish req other holder =
      let l : WorkspaceLease = record {
        workspace_key = workspace_key req.workspace;
        worktree_path = req.workspace.worktree_path;
        activation_id = req.activation_id;
        attempt_id = req.attempt_id;
        specialist = req.specialist;
        holder = holder;
        acquired_at_ms = now;
      } in
      if has (lease_path req.workspace) other
      then thrown (workspace_held_by_another_writer (inspect other req.workspace)) other
      else returned l (set (lease_path req.workspace) (lease_file l) other)

  take_free : AcquireRequest → Files → Option ℕ → Result WorkspaceLease
  unfolding publish
  take_free req other none = thrown no_reuse_guard other
  take_free req other (some ticks) =
      publish req other (record { pid = self_pid; start_ticks = ticks })

  -- The resume case replaces the record by `renameSync`.
  rewrite : WorkspaceIdentity → WorkspaceLease → Files → Result WorkspaceLease
  rewrite ws l other = returned l (set (lease_path ws) (lease_file l) other)

  acquire_on : AcquireRequest → Files → LeaseStatus → Result WorkspaceLease
  unfolding take_free rewrite
  acquire_on req other free = take_free req other (start_ticks self_pid)
  acquire_on req other (held l) =
      if str_eq l.activation_id req.activation_id
      then rewrite req.workspace (record l { attempt_id = req.attempt_id }) other
      else thrown (workspace_held_by_another_writer (held l)) other
  acquire_on req other (uncertain l why) =
      thrown (workspace_lease_uncertain (uncertain l why)) other

  -- `seen` are the files at the inspection, `other` those at the write.
  unfoldable pub acquire : AcquireRequest → Files → Files → Result WorkspaceLease
  unfolding inspect acquire_on
  acquire req seen other = acquire_on req other (inspect seen req.workspace)

  release_on : WorkspaceIdentity → String → Files → LeaseStatus → Result (Unit {0})
  release_on ws activation fs free = returned tt fs
  release_on ws activation fs (uncertain l why) =
      thrown (workspace_lease_uncertain (uncertain l why)) fs
  release_on ws activation fs (held l) =
      if not (str_eq l.activation_id activation)
      then thrown (workspace_lease_not_held_by_caller (held l)) fs
      else returned tt (delete (lease_path ws) fs)

  unfoldable pub release : WorkspaceIdentity → String → Files → Result (Unit {0})
  unfolding inspect release_on
  release ws activation fs = release_on ws activation fs (inspect fs ws)
