-- ===== src/Epic/StoredExamples.antt =====
-- Runs of the stored epics at concrete inputs (src/specialist/epic-readiness.ts, epic-reconciler.ts).
use unit_ai_specialists.Common.{◌≡◌, refl, ◌↔◌, true, false, none, some, [], ◌∷◌}
use unit_ai_specialists.Job.{SupervisorStatus}
use unit_ai_specialists.Epic.Lifecycle.{opened, merge_ready}
use unit_ai_specialists.Epic.Readiness.Chains.{Alive}
use unit_ai_specialists.Epic.Readiness.Derive.{evaluate_epic_readiness_summary}
use unit_ai_specialists.Common.{◌≢◌, eq_iff, arith}
use unit_ai_specialists.Common.Dict.{get}
use unit_ai_specialists.Job.{HostProbe}
use unit_ai_specialists.Epic.Database.{
  raw, object, EpicRunRecord, Database, read_epic_run, list_statuses, list_epic_chains,
}
use unit_ai_specialists.Epic.Stored.{status_or_open, load_epic_readiness_summary}
use unit_ai_specialists.Epic.Reconciler.{is_marker, has_redirect_markers, sync_epic_state}
use unit_ai_specialists.Epic.Reconciler.Laws.{repair_reverts}
use unit_ai_specialists.Epic.Reconciler.Marking.{marking_clears}
use unit_ai_specialists.Epic.Reconciler.{
  collect_epic_jobs, detect_dead_blocking_jobs, mark_dead_jobs_as_error,
}
use unit_ai_specialists.Job.{running, is_job_dead, is_pid_alive}
use unit_ai_specialists.Epic.Reconciler.Abandon.{
  EpicAbandonResult, Abandoned, abandon_epic, list_live_member_job_ids, Allowed, Stored,
  abandon_iff,
}

abbrev all_alive : Alive
all_alive pid started = true

-- An epic with no job: its derived state is merge_ready, and its stored text has a redirect marker.
abbrev marked_run : EpicRunRecord
marked_run = record {
  epic_id = "e1";
  status = opened;
  updated_at_ms = 5;
  status_json = object (("redirect_to", raw "e0") ∷ []);
}

abbrev tables : Database
tables = record { jobs = []; chains = []; runs = ("e1", marked_run) ∷ []; results = [] }

abbrev idle_host : HostProbe
idle_host = record { signal = λ pid. true; session_alive = λ s. true }

reads_marked : read_epic_run "e1" tables ≡ some marked_run
unfolding read_epic_run get
reads_marked = refl

is_marked : has_redirect_markers marked_run.status_json ≡ true
unfolding has_redirect_markers is_marker
is_marked = refl

derives_merge_ready : (load_epic_readiness_summary all_alive "e1" tables).next_state ≡ merge_ready
unfolding load_epic_readiness_summary evaluate_epic_readiness_summary read_epic_run get
    list_statuses list_epic_chains
derives_merge_ready = refl

apart : marked_run.epic_id ≢ "e2"
apart e = let clash : false ≡ true = (eq_iff "e1" "e2").1 e in ground arith

repair_reverts_example :
    (after : EpicRunRecord) × (read_epic_run "e1"
        (sync_epic_state all_alive idle_host 9 "e1" true tables).1
      ≡ some after)
    × (after.status ≡ opened)
    × (has_redirect_markers after.status_json ≡ false)
repair_reverts_example =
    repair_reverts all_alive idle_host 9 "e1" tables marked_run reads_marked refl is_marked

abandon_iff_example :
    (((out : EpicAbandonResult) × (after : Database) × (abandon_epic idle_host 9 "e1" "stale" false
            tables
          ≡ Abandoned.abandoned out after))
      ↔ Allowed idle_host 9 "e1" "stale" false tables
          (status_or_open (read_epic_run "e1" tables))
          (list_live_member_job_ids idle_host "e1" tables))
    × ((out : EpicAbandonResult) (after : Database)
        → abandon_epic idle_host 9 "e1" "stale" false tables ≡ Abandoned.abandoned out after
        → Stored idle_host 9 "e1" "stale" false tables out after)
abandon_iff_example = abandon_iff idle_host 9 "e1" "stale" false tables

-- A job of the epic whose process does not answer.
abbrev lost : SupervisorStatus
lost = record {
  id = "j9";
  specialist = "executor";
  status = running;
  pid = some 9;
  started_at_ms = 1;
  last_event_at_ms = none;
  error = none;
  bead_id = none;
  node_id = none;
  epic_id = some "e1";
  chain_kind = none;
  chain_id = none;
  chain_root_job_id = none;
  chain_root_bead_id = none;
  trace_id = none;
  span_id = none;
  parent_span_id = none;
  worktree_path = none;
  worktree_owner_job_id = none;
  tmux_session = none;
}

abbrev silent_host : HostProbe
silent_host = record { signal = λ pid. false; session_alive = λ s. false }

abbrev with_lost : Database
with_lost = record tables { jobs = lost ∷ [] }

detects_lost : detect_dead_blocking_jobs silent_host (collect_epic_jobs "e1" with_lost) ≡ "j9" ∷ []
unfolding detect_dead_blocking_jobs collect_epic_jobs list_epic_chains list_statuses is_job_dead
    is_pid_alive
detects_lost = refl

marking_clears_example :
    let after =
      (mark_dead_jobs_as_error silent_host 9 (collect_epic_jobs "e1" with_lost) with_lost).1 in
    (after.chains ≡ with_lost.chains)
    × (detect_dead_blocking_jobs silent_host (collect_epic_jobs "e1" after) ≡ [])
marking_clears_example = marking_clears silent_host 9 "e1" with_lost
