-- ===== src/Activation/Reconcile.antt =====
-- src/activation/workspace-reconcile.ts: the recorded resolution of an uncertain workspace. The
-- projection for the status surface is left out.
pub mod Laws
use Prim.Native.String
use unit_ai_specialists.Common.{
  ℕ, Bool, true, false, not, ◌&&◌, Option, none, some, List, [], ◌∷◌, ◌++◌, String, truthy,
  if◌then◌else◌,
}
use unit_ai_specialists.Common.Dict.{Dict, get, set, delete}
use unit_ai_specialists.Activation.Lease.{
  WorkspaceIdentity, WorkspaceLease, HolderProcess, Files, LeaseStatus, free, held, uncertain,
  UncertainReason, holder_process_gone, holder_start_mismatch, liveness_unverifiable,
  unreadable_record, LeaseHost, inspect,
}

pub data ProposedOutcome : Type 0 where
  safe_free superseded manual_attention_required : ProposedOutcome

pub data ReconciliationOutcome : Type 0 where
  recovered_holder : ReconciliationOutcome
  proposed : ProposedOutcome → ReconciliationOutcome

pub data RefusalReason : Type 0 where
  workspace_not_uncertain holder_is_live insufficient_evidence reason_forbids_outcome
        successor_not_named :
      RefusalReason

pub record ReconciliationRequest : Type 0 where
  pub outcome : ProposedOutcome
  pub decided_by : String
  pub basis : List String
  pub superseded_by : Option String
  pub note : Option String

pub record Holder : Type 0 where
  pub pid : ℕ
  pub activation_id : String
  pub specialist : Option String

pub record ReconciliationRecord : Type 0 where
  pub workspace_key : String
  pub worktree_path : String
  pub applied : Bool
  pub outcome : ReconciliationOutcome
  pub proposed_outcome : Option ProposedOutcome
  pub refusal_reason : Option RefusalReason
  pub observed : LeaseStatus
  pub holder : Option Holder
  pub decided_by : String
  pub basis : List String
  pub superseded_by : Option String
  pub note : Option String
  pub decided_at_ms : ℕ

-- The table `PERMITTED`.
abbrev pub permitted : UncertainReason → ProposedOutcome → Bool
permitted holder_process_gone _ = true
permitted holder_start_mismatch _ = true
permitted unreadable_record safe_free = false
permitted unreadable_record _ = true
permitted liveness_unverifiable manual_attention_required = true
permitted liveness_unverifiable _ = false

-- The lease files, and the append-only log beside each.
pub record Store : Type 0 where
  pub files : Files
  pub logs : Dict (List ReconciliationRecord)

-- What the forensic sink is told, when there is one.
pub record ForensicEvent : Type 0 where
  pub activation_id : String
  pub attempt_id : String
  pub specialist : Option String
  pub name : String
  pub payload : ReconciliationRecord
  pub attributed_to_workspace : Bool

abbrev lease_of : LeaseStatus → Option WorkspaceLease
lease_of free = none
lease_of (held l) = some l
lease_of (uncertain l why) = l

abbrev holder_of : Option WorkspaceLease → Option Holder
holder_of none = none
holder_of (some l) =
    some (record { pid = l.holder.pid; activation_id = l.activation_id; specialist = l.specialist })

abbrev key_for : String → Option WorkspaceLease → String
key_for k none = k
key_for k (some l) = l.workspace_key

abbrev no_basis : List String → Bool
no_basis [] = true
no_basis (_ ∷ _) = false

abbrev is_superseded : ProposedOutcome → Bool
is_superseded superseded = true
is_superseded _ = false

abbrev is_manual : ProposedOutcome → Bool
is_manual manual_attention_required = true
is_manual _ = false

-- `readReconciliationLog`: a log that does not exist reads as empty.
abbrev pub log_of : Option (List ReconciliationRecord) → List ReconciliationRecord
log_of none = []
log_of (some rs) = rs

module _ (host : LeaseHost) (ws : WorkspaceIdentity) (req : ReconciliationRequest) where
  abbrev entry :
      LeaseStatus
      → Bool
      → ReconciliationOutcome
      → Option ProposedOutcome
      → Option RefusalReason
      → ReconciliationRecord
  entry status applied outcome asked refusal = record {
    workspace_key = key_for (host.workspace_key ws) (lease_of status);
    worktree_path = ws.worktree_path;
    applied = applied;
    outcome = outcome;
    proposed_outcome = asked;
    refusal_reason = refusal;
    observed = status;
    holder = holder_of (lease_of status);
    decided_by = req.decided_by;
    basis = req.basis;
    superseded_by = req.superseded_by;
    note = req.note;
    decided_at_ms = host.now;
  }

  abbrev refuse : LeaseStatus → RefusalReason → ReconciliationRecord
  refuse status why =
      entry status false (proposed manual_attention_required) (some req.outcome) (some why)

  -- `decide`: the record, and the files; `removeLease` ignores a file that is gone.
  decide_uncertain : Option WorkspaceLease → UncertainReason → Files → ReconciliationRecord × Files
  decide_uncertain l why fs =
      let status = uncertain l why in
      let asked = req.outcome in
      if no_basis req.basis
      then (refuse status insufficient_evidence, fs)
      else if not (permitted why asked)
      then (refuse status reason_forbids_outcome, fs)
      else if is_superseded asked && not (truthy req.superseded_by)
      then (refuse status successor_not_named, fs)
      else if is_manual asked
      then (entry status true (proposed manual_attention_required) none none, fs)
      else (entry status true (proposed asked) none none, delete (host.lease_path ws) fs)

  decide : LeaseStatus → Files → ReconciliationRecord × Files
  unfolding decide_uncertain
  decide free fs = (refuse free workspace_not_uncertain, fs)
  decide (held l) fs =
      (entry (held l) false recovered_holder (some req.outcome) (some holder_is_live), fs)
  decide (uncertain l why) fs = decide_uncertain l why fs

  abbrev event_of : ReconciliationRecord → Option WorkspaceLease → ForensicEvent
  event_of r none = record {
    activation_id = String.◌++◌ "workspace:" r.workspace_key;
    attempt_id = "reconciliation";
    specialist = none;
    name = if r.applied then "lease_reconciled" else "lease_uncertain";
    payload = r;
    attributed_to_workspace = true;
  }
  event_of r (some l) = record {
    activation_id = l.activation_id;
    attempt_id = l.attempt_id;
    specialist = l.specialist;
    name = if r.applied then "lease_reconciled" else "lease_uncertain";
    payload = r;
    attributed_to_workspace = false;
  }

  append_record :
      ReconciliationRecord → Dict (List ReconciliationRecord) → Dict (List ReconciliationRecord)
  append_record r logs =
      let path = host.lease_path ws in set path (log_of (get path logs) ++ r ∷ []) logs

  unfoldable pub reconcile : Store → ReconciliationRecord × ForensicEvent × Store
  unfolding decide append_record
  reconcile s =
      let status = inspect host s.files ws in
      let (r, fs) = decide status s.files in
      (r, event_of r (lease_of status), record { files = fs; logs = append_record r s.logs })
