-- ===== src/Epic/Readiness/Derive.antt =====
-- The readiness of an epic from its prep jobs and its chains, and the state to store: the second
-- half of src/specialist/epic-readiness.ts. The summary line is left out: it is a text for display.
pub mod Laws
use unit_ai_specialists.Common.{
  ℕ, ltb, ◌==◌, Bool, true, false, not, Option, none, some, List, [], ◌∷◌, ◌++◌, map, String, any,
  all, filter, length, if◌then◌else◌, ◌||◌,
}
use unit_ai_specialists.Job.{JobStatus, SupervisorStatus, is_active, error, done}
use unit_ai_specialists.Epic.Lifecycle.{EpicState, state_index}
use unit_ai_specialists.Epic.Readiness.Chains.{
  Alive, EvaluatorJob, ChainReadinessState, ChainReadinessSummary, evaluate_chain_readiness,
}

pub data EpicReadinessState : Type 0 where
  unresolved resolving blocked failed merge_ready merged abandoned : EpicReadinessState

pub record PrepReadinessSummary : Type 0 where
  pub total : ℕ
  pub done : ℕ
  pub running : ℕ
  pub failed : ℕ
  pub blocker_job_ids : List String

abbrev is_error : JobStatus → Bool
is_error error = true
is_error _ = false

abbrev is_done : JobStatus → Bool
is_done done = true
is_done _ = false

unfoldable pub evaluate_prep_readiness : List SupervisorStatus → PrepReadinessSummary
evaluate_prep_readiness prep_jobs =
    let running = filter (λ j. is_active j.status) prep_jobs in
    let failed = filter (λ j. is_error j.status) prep_jobs in
    record {
      total = length prep_jobs;
      done = length (filter (λ j. is_done j.status) prep_jobs);
      running = length running;
      failed = length failed;
      blocker_job_ids = map (λ j. j.id) (running ++ failed);
    }

abbrev pub is_pending : ChainReadinessSummary → Bool
is_pending c = elim c.state [ ChainReadinessState.pending ↦ true | _ ↦ false ]

abbrev pub is_blocked : ChainReadinessSummary → Bool
is_blocked c = elim c.state [ ChainReadinessState.blocked ↦ true | _ ↦ false ]

abbrev pub is_failed : ChainReadinessSummary → Bool
is_failed c = elim c.state [ ChainReadinessState.failed ↦ true | _ ↦ false ]

abbrev pub is_passed : ChainReadinessSummary → Bool
is_passed c = elim c.state [ ChainReadinessState.passed ↦ true | _ ↦ false ]

unfoldable pub derive_epic_readiness_state :
    PrepReadinessSummary → List ChainReadinessSummary → EpicReadinessState
derive_epic_readiness_state prep chains =
    if ltb 0 prep.running || any is_pending chains
    then EpicReadinessState.resolving
    else if ltb 0 prep.failed || any is_failed chains
    then EpicReadinessState.failed
    else if any is_blocked chains
    then EpicReadinessState.blocked
    else if length chains == 0 || all is_passed chains
    then EpicReadinessState.merge_ready
    else EpicReadinessState.blocked

abbrev next_of : EpicReadinessState → EpicState
next_of EpicReadinessState.merge_ready = EpicState.merge_ready
next_of EpicReadinessState.failed = EpicState.failed
next_of _ = EpicState.resolving

unfoldable pub derive_epic_next_state : EpicState → EpicReadinessState → EpicState
derive_epic_next_state EpicState.merged readiness = EpicState.merged
derive_epic_next_state EpicState.abandoned readiness = EpicState.abandoned
derive_epic_next_state persisted readiness = next_of readiness

pub record ChainInput : Type 0 where
  pub chain_id : String
  pub chain_root_bead_id : Option String
  pub jobs : List EvaluatorJob

-- `prep:<id>` and `chain:<id>`.
pub data Blocker : Type 0 where
  prep chain : String → Blocker

pub record EpicReadinessSummary : Type 0 where
  pub epic_id : String
  pub persisted_state : EpicState
  pub readiness_state : EpicReadinessState
  pub next_state : EpicState
  pub can_transition : Bool
  pub prep : PrepReadinessSummary
  pub chains : List ChainReadinessSummary
  pub blockers : List Blocker

abbrev pub hinders : ChainReadinessSummary → Bool
hinders c = is_pending c || is_blocked c || is_failed c

unfoldable pub evaluate_epic_readiness_summary :
    Alive → String → EpicState → List SupervisorStatus → List ChainInput → EpicReadinessSummary
unfolding evaluate_prep_readiness derive_epic_readiness_state derive_epic_next_state
evaluate_epic_readiness_summary alive epic_id persisted prep_jobs inputs =
    let prep_summary = evaluate_prep_readiness prep_jobs in
    let chains =
      map (λ c. evaluate_chain_readiness c.chain_id c.chain_root_bead_id alive c.jobs) inputs in
    let readiness = derive_epic_readiness_state prep_summary chains in
    let next = derive_epic_next_state persisted readiness in
    record {
      epic_id = epic_id;
      persisted_state = persisted;
      readiness_state = readiness;
      next_state = next;
      can_transition = not (state_index next == state_index persisted);
      prep = prep_summary;
      chains = chains;
      blockers =
          map prep prep_summary.blocker_job_ids
          ++ map (λ c. chain c.chain_id) (filter hinders chains);
    }
