-- ===== src/Epic/Stored.antt =====
-- The readiness of a stored epic, src/specialist/epic-readiness.ts: it is computed from the tables, and
-- the state that it derives is written back. `alive` answers for processes, and `now` is the clock.
pub mod Laws
use unit_ai_specialists.Common.{
  ℕ, Bool, true, false, not, ◌&&◌, ◌||◌, ◌==◌, Option, none, some, List, [], ◌∷◌, ◌++◌, map, String,
  str_eq, is_text, truthy, any, filter, find, defined, coalesce, if◌then◌else◌,
}
use unit_ai_specialists.Common.Text.{codes, lower, same_codes}
use unit_ai_specialists.Common.Dict.{Dict, get, set}
use unit_ai_specialists.Common.Sorting.{sort_by}
use unit_ai_specialists.Job.{
  JobStatus, SupervisorStatus, is_active, is_chain_kind, HostProbe, is_job_dead, error,
}
use unit_ai_specialists.Epic.Lifecycle.{EpicState}
use unit_ai_specialists.Epic.Lifecycle
use unit_ai_specialists.Epic.Readiness.Chains.{Alive, EvaluatorJob}
use unit_ai_specialists.Epic.Readiness.Derive.{
  EpicReadinessState, EpicReadinessSummary, ChainInput, evaluate_epic_readiness_summary,
}
use unit_ai_specialists.Epic.Database.{
  Json, raw, part, transitions, state, stamp, flag, StatusJson, unparsed, object, EpicRunRecord,
  EpicChainRecord, Database, includes_text, read_epic_run, upsert_epic_run, list_epic_chains,
  list_statuses, list_chain_job_ids, upsert_status, read_result, delete_epic_chain_membership,
}

abbrev pub status_or_open : Option EpicRunRecord → EpicState
status_or_open none = EpicState.opened
status_or_open (some r) = r.status

-- A set keeps the order of insertion.
add_all : List String → List String → List String
add_all seen [] = seen
add_all seen (x ∷ xs) =
    let with_x = add_all (seen ++ x ∷ []) xs in
    let without = add_all seen xs in if includes_text x seen then without else with_x

abbrev chain_ids_of : List SupervisorStatus → List String
chain_ids_of [] = []
chain_ids_of (s ∷ ss) = elim s.chain_id [
  | none ↦ chain_ids_of ss
  | some c ↦
      let rest = chain_ids_of ss in
      if is_chain_kind s.chain_kind && truthy (some c) then c ∷ rest else rest
]

abbrev root_of : Option EpicChainRecord → Option String
root_of none = none
root_of (some c) = c.chain_root_bead_id

chain_input : Database → List EpicChainRecord → List SupervisorStatus → String → ChainInput
unfolding read_result
chain_input db records statuses chain = record {
  chain_id = chain;
  chain_root_bead_id = root_of (find (λ r. str_eq r.chain_id chain) records);
  jobs =
      map
        (λ s. record {
          id = s.id;
          specialist = s.specialist;
          status = s.status;
          pid = s.pid;
          started_at_ms = s.started_at_ms;
          result_text = read_result s.id db;
        })
        (sort_by (λ s. s.started_at_ms)
          (filter (λ s. is_chain_kind s.chain_kind && is_text s.chain_id chain) statuses));
}

unfoldable pub load_epic_readiness_summary : Alive → String → Database → EpicReadinessSummary
unfolding chain_input add_all
load_epic_readiness_summary alive id db =
    let statuses = filter (λ s. is_text s.epic_id id) (list_statuses db) in
    let records = list_epic_chains id db in
    let chains = add_all [] (map (λ r. r.chain_id) records ++ chain_ids_of statuses) in
    evaluate_epic_readiness_summary alive id (status_or_open (read_epic_run id db))
      (filter (λ s. not (is_chain_kind s.chain_kind)) statuses)
      (map (chain_input db records statuses) chains)

abbrev recovered_from_legacy_failure : EpicReadinessSummary → Bool
recovered_from_legacy_failure s = elim s.persisted_state [
  | EpicState.failed ↦ elim s.readiness_state [ EpicReadinessState.merge_ready ↦ true | _ ↦ false ]
  | _ ↦ false
]

abbrev healed_note : Bool → Dict Json
healed_note true =
    ("note", raw "derived readiness healed legacy failed row after live chains turned pass") ∷ []
healed_note false = []

abbrev record_of : EpicReadinessSummary → ℕ → EpicRunRecord
record_of s now = record {
  epic_id = s.epic_id;
  status = s.next_state;
  updated_at_ms = now;
  status_json = object (
      ("epic_id", raw s.epic_id)
      ∷ ("status", state s.next_state)
      ∷ ("persisted_state", state s.persisted_state)
      ∷ ("readiness_state", part s)
      ∷ ("blockers", part s)
      ∷ ("prep", part s)
      ∷ ("chains", part s)
      ∷ ("summary", part s)
      ∷ ("evaluated_at_ms", stamp now)
      ∷ healed_note (recovered_from_legacy_failure s));
}

unfoldable pub sync_epic_state_from_readiness :
    EpicReadinessSummary → ℕ → Database → EpicRunRecord × Database
sync_epic_state_from_readiness s now db =
    let next = record_of s now in
    (
      next,
      if s.can_transition
            || recovered_from_legacy_failure s
            || not (defined (read_epic_run s.epic_id db))
          then upsert_epic_run next db
          else db,
    )
