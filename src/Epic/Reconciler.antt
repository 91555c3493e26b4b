-- ===== src/Epic/Reconciler.antt =====
-- The repair of an epic, src/specialist/epic-reconciler.ts. `alive` and `host` answer for processes, and
-- `now` is the clock.
pub mod Laws
pub mod Marking
pub mod Audit
pub mod Abandon
use unit_ai_specialists.Common.{
  ℕ, Bool, true, false, not, ◌&&◌, ◌||◌, ◌==◌, Option, none, some, List, [], ◌∷◌, ◌++◌, map, String,
  str_eq, is_text, truthy, any, filter, find, defined, coalesce, if◌then◌else◌,
}
use unit_ai_specialists.Common.Text.{codes, lower, same_codes}
use unit_ai_specialists.Common.Dict.{Dict, get, set}
use unit_ai_specialists.Common.Sorting.{sort_by}
use unit_ai_specialists.Job.{
  JobStatus, SupervisorStatus, is_active, is_chain_kind, HostProbe, is_job_dead, error,
}
use unit_ai_specialists.Epic.Lifecycle.{EpicState}
use unit_ai_specialists.Epic.Lifecycle
use unit_ai_specialists.Epic.Readiness.Chains.{Alive, EvaluatorJob}
use unit_ai_specialists.Epic.Readiness.Derive.{
  EpicReadinessState, EpicReadinessSummary, ChainInput, evaluate_epic_readiness_summary,
}
use unit_ai_specialists.Epic.Database.{
  Json, raw, part, transitions, state, stamp, flag, StatusJson, unparsed, object, EpicRunRecord,
  EpicChainRecord, Database, includes_text, read_epic_run, upsert_epic_run, list_epic_chains,
  list_statuses, list_chain_job_ids, upsert_status, read_result, delete_epic_chain_membership,
}
use unit_ai_specialists.Epic.Stored.{
  load_epic_readiness_summary, sync_epic_state_from_readiness, status_or_open,
}

starts_with : List ℕ → List ℕ → Bool
starts_with [] s = true
starts_with (p ∷ ps) [] = false
starts_with (p ∷ ps) (c ∷ s) = p == c && starts_with ps s

contains : List ℕ → List ℕ → Bool
unfolding starts_with
contains pattern_ [] = starts_with pattern_ []
contains pattern_ (c ∷ s) = starts_with pattern_ (c ∷ s) || contains pattern_ s

-- `key.toLowerCase().includes('redirect')`, with no letter beyond ASCII folded.
unfoldable pub is_marker : String × Json → Bool
unfolding contains lower
is_marker (key, value) = contains (codes "redirect") (map lower (codes key))

unfoldable pub has_redirect_markers : StatusJson → Bool
has_redirect_markers (unparsed text) = false
has_redirect_markers (object entries) = any is_marker entries

unfoldable pub clear_redirect_markers : StatusJson → StatusJson
clear_redirect_markers (unparsed text) = unparsed text
clear_redirect_markers (object entries) = object (filter (λ e. not (is_marker e)) entries)

abbrev in_chains : Option String → List String → Bool
in_chains none ids = false
in_chains (some c) ids = truthy (some c) && includes_text c ids

unfoldable pub collect_epic_jobs : String → Database → List SupervisorStatus
collect_epic_jobs id db =
    let ids = map (λ c. c.chain_id) (list_epic_chains id db) in
    filter (λ s. is_text s.epic_id id || in_chains s.chain_id ids) (list_statuses db)

abbrev is_empty : List String → Bool
is_empty [] = true
is_empty (_ ∷ _) = false

unfoldable pub detect_stale_chain_refs : String → Database → List String
detect_stale_chain_refs id db =
    filter (λ c. is_empty (list_chain_job_ids c db))
      (map (λ c. c.chain_id) (list_epic_chains id db))

unfoldable pub detect_dead_blocking_jobs : HostProbe → List SupervisorStatus → List String
detect_dead_blocking_jobs host jobs =
    map (λ j. j.id) (filter (λ j. is_active j.status && is_job_dead host j) jobs)

-- What the texts of the flags are made from: the job, its chain, and the epic it is linked to.
pub data IntegrityFlag : Type 0 where
  missing_chain_id : String → IntegrityFlag
  missing_membership : String → String → IntegrityFlag
  linked_elsewhere : String → String → String → IntegrityFlag

abbrev chain_flags : String → List String → SupervisorStatus → Option String → List IntegrityFlag
chain_flags id ids job none =
    if is_chain_kind job.chain_kind then missing_chain_id job.id ∷ [] else []
chain_flags id ids job (some chain) =
    (if is_chain_kind job.chain_kind && not (truthy (some chain))
      then missing_chain_id job.id ∷ []
      else [])
    ++ (if truthy (some chain) && not (includes_text chain ids) && is_text job.epic_id id
        then missing_membership job.id chain ∷ []
        else [])
    ++ elim job.epic_id [
      | none ↦ []
      | some epic ↦
          if truthy (some chain)
            && includes_text chain ids
            && truthy (some epic)
            && not (str_eq epic id)
          then linked_elsewhere job.id chain epic ∷ []
          else []
    ]

abbrev flags_each : String → List String → List SupervisorStatus → List IntegrityFlag
flags_each id ids [] = []
flags_each id ids (job ∷ jobs) = chain_flags id ids job job.chain_id ++ flags_each id ids jobs

unfoldable pub detect_integrity_flags :
    String → Database → List SupervisorStatus → List IntegrityFlag
detect_integrity_flags id db jobs =
    flags_each id (map (λ c. c.chain_id) (list_epic_chains id db)) jobs

abbrev as_error : ℕ → SupervisorStatus → SupervisorStatus
as_error now s = record s {
  status = error;
  error = coalesce s.error (some "epic reconciler: detected dead pid/tmux for active job");
  last_event_at_ms = some now;
}

mark_one : ℕ → Option SupervisorStatus → Database → Database
mark_one now none db = db
mark_one now (some current) db = upsert_status (as_error now current) db

mark_each : ℕ → List SupervisorStatus → List String → Database → Database
unfolding mark_one
mark_each now jobs [] db = db
mark_each now jobs (id ∷ ids) db =
    mark_each now jobs ids (mark_one now (find (λ j. str_eq j.id id) jobs) db)

unfoldable pub mark_dead_jobs_as_error :
    HostProbe → ℕ → List SupervisorStatus → Database → List String × Database
unfolding mark_each
mark_dead_jobs_as_error host now jobs db =
    let dead = detect_dead_blocking_jobs host jobs in (dead, mark_each now jobs dead db)

pub record EpicSyncResult : Type 0 where
  pub stale_chain_refs : List String
  pub dead_jobs_blocking_readiness : List String
  pub integrity_flags : List IntegrityFlag
  pub stale_redirect_markers : Bool
  pub dead_jobs_marked_error : List String
  pub stale_chain_refs_pruned : List String
  pub readiness_resynced : Bool
  pub redirect_markers_cleared : Bool
  pub readiness_before : EpicReadinessSummary
  pub readiness_after : EpicReadinessSummary

abbrev pub has_markers : Option EpicRunRecord → Bool
has_markers none = false
has_markers (some r) = has_redirect_markers r.status_json

-- The record that was read at the start is written again without its markers. The text of the cleaned
-- object differs from the old one, as a key is gone.
clear_markers : ℕ → Option EpicRunRecord → Database → Bool × Database
clear_markers now none db = (false, db)
clear_markers now (some r) db =
    if has_redirect_markers r.status_json
    then (
      true,
      upsert_epic_run
          (record r { status_json = clear_redirect_markers r.status_json; updated_at_ms = now }) db,
    )
    else (false, db)

abbrev other_state : EpicState → EpicState → Bool
other_state a b = not (Lifecycle.state_index a == Lifecycle.state_index b)

-- `syncEpicState`.
unfoldable pub sync_epic_state :
    Alive → HostProbe → ℕ → String → Bool → Database → EpicSyncResult × Database
unfolding clear_markers
sync_epic_state alive host now id apply db =
    let run = read_epic_run id db in
    let jobs = collect_epic_jobs id db in
    let before = load_epic_readiness_summary alive id db in
    let stale = detect_stale_chain_refs id db in
    let dead = detect_dead_blocking_jobs host jobs in
    let flags = detect_integrity_flags id db jobs in
    if apply
    then (let (marked, db1) = mark_dead_jobs_as_error host now jobs db in
        let (pruned, db2) = delete_epic_chain_membership id stale db1 in
        let next = load_epic_readiness_summary alive id db2 in
        let (synced, db3) = sync_epic_state_from_readiness next now db2 in
        let (cleared, db4) = clear_markers now run db3 in
        (
          record {
            stale_chain_refs = stale;
            dead_jobs_blocking_readiness = dead;
            integrity_flags = flags;
            stale_redirect_markers = has_markers run;
            dead_jobs_marked_error = marked;
            stale_chain_refs_pruned = pruned;
            readiness_resynced = other_state synced.status next.persisted_state;
            redirect_markers_cleared = cleared;
            readiness_before = before;
            readiness_after = load_epic_readiness_summary alive id db4;
          },
          db4,
        ))
    else (
      record {
        stale_chain_refs = stale;
        dead_jobs_blocking_readiness = dead;
        integrity_flags = flags;
        stale_redirect_markers = has_markers run;
        dead_jobs_marked_error = [];
        stale_chain_refs_pruned = [];
        readiness_resynced = false;
        redirect_markers_cleared = false;
        readiness_before = before;
        readiness_after = before;
      },
      db,
    )
