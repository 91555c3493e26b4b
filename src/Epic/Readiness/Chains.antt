-- ===== src/Epic/Readiness/Chains.antt =====
-- `evaluateChainReadiness` of src/specialist/epic-readiness.ts.
pub mod Soundness
use unit_ai_specialists.Common.{
  ℕ, ◌<◌, ltb, ◌==◌, Bool, true, false, not, ◌≡◌, ◌&&◌, Option, none, some, List, [], ◌∷◌, map,
  String, str_eq, any, filter, length, get_last?, if◌then◌else◌,
}
use unit_ai_specialists.Common.Sorting.{sort_by}
use unit_ai_specialists.Job.{JobStatus, is_active, is_terminal, done}
use unit_ai_specialists.Epic.Readiness.Verdict.{
  ReviewerVerdict, pass, partial, fail, missing, is_missing, parse_reviewer_verdict,
}

pub data ChainReadinessState : Type 0 where
  pending blocked passed failed : ChainReadinessState

pub record EvaluatorJob : Type 0 where
  pub id : String
  pub specialist : String
  pub status : JobStatus
  pub pid : Option ℕ
  pub started_at_ms : ℕ
  pub result_text : Option String

-- What the text of `blocking_reason` is made from.
pub data BlockingReason : Type 0 where
  no_jobs : BlockingReason
  dead_active active : List String → BlockingReason
  no_verdict fix_loop : BlockingReason
  latest_verdict : ReviewerVerdict → BlockingReason

pub record ChainReadinessSummary : Type 0 where
  pub chain_id : String
  pub chain_root_bead_id : Option String
  pub state : ChainReadinessState
  pub reviewer_verdict : ReviewerVerdict
  pub blocking_reason : Option BlockingReason
  pub has_active_jobs : Bool
  pub job_ids : List String

-- `isProcessAlive(pid, startedAt)` of process-liveness.ts, which asks the host.
abbrev pub Alive : Type 0
Alive = ℕ → ℕ → Bool

abbrev pub job_ids_of : List EvaluatorJob → List String
job_ids_of jobs = map (λ j. j.id) jobs

abbrev pub active_job : EvaluatorJob → Bool
active_job j = is_active j.status

abbrev is_done : JobStatus → Bool
is_done done = true
is_done _ = false

abbrev pub verdict_of : EvaluatorJob → ReviewerVerdict
verdict_of j = parse_reviewer_verdict j.result_text

-- The three tests by which `reviewerJobs` is selected.
abbrev pub gives_verdict : EvaluatorJob → Bool
gives_verdict j =
    (str_eq j.specialist "reviewer" && is_done j.status) && not (is_missing (verdict_of j))

abbrev process_dead : Alive → Option ℕ → ℕ → Bool
process_dead alive none started = false
process_dead alive (some pid) started = not (alive pid started)

abbrev pub dead_job : Alive → EvaluatorJob → Bool
dead_job alive j = process_dead alive j.pid j.started_at_ms

abbrev nonempty : List EvaluatorJob → Bool
nonempty [] = false
nonempty (_ ∷ _) = true

module _ (chain_id : String) (root : Option String) where
  abbrev report :
      List EvaluatorJob
      → ChainReadinessState
      → ReviewerVerdict
      → Option BlockingReason
      → Bool
      → ChainReadinessSummary
  report ordered state verdict reason live = record {
    chain_id = chain_id;
    chain_root_bead_id = root;
    state = state;
    reviewer_verdict = verdict;
    blocking_reason = reason;
    has_active_jobs = live;
    job_ids = job_ids_of ordered;
  }

  -- From `latestReviewer` on.
  judge_reviewer : List EvaluatorJob → EvaluatorJob → ReviewerVerdict → ChainReadinessSummary
  judge_reviewer ordered latest pass = report ordered passed pass none false
  judge_reviewer ordered latest verdict =
      let later = filter (λ j. ltb latest.started_at_ms j.started_at_ms) ordered in
      if any (λ j. is_terminal j.status) later
      then report ordered blocked verdict (some fix_loop) false
      else report ordered failed verdict (some (latest_verdict verdict)) false

  judge_latest : List EvaluatorJob → Option EvaluatorJob → ChainReadinessSummary
  unfolding judge_reviewer
  judge_latest ordered none = report ordered blocked missing (some no_verdict) false
  judge_latest ordered (some latest) = judge_reviewer ordered latest (verdict_of latest)

  judge_ordered : Alive → List EvaluatorJob → ChainReadinessSummary
  unfolding judge_latest
  judge_ordered alive ordered =
      let live = filter active_job ordered in
      let dead = filter (dead_job alive) live in
      if nonempty dead
      then report ordered failed missing (some (dead_active (job_ids_of dead))) false
      else if nonempty live
      then report ordered pending missing (some (active (job_ids_of live))) true
      else judge_latest ordered (get_last? (filter gives_verdict ordered))

  unfoldable pub evaluate_chain_readiness : Alive → List EvaluatorJob → ChainReadinessSummary
  unfolding judge_ordered
  evaluate_chain_readiness alive [] = report [] blocked missing (some no_jobs) false
  evaluate_chain_readiness alive (j ∷ js) =
      judge_ordered alive (sort_by (λ j. j.started_at_ms) (j ∷ js))
