-- ===== src/Epic/Examples.antt =====
-- Runs of the epic modules at concrete inputs (src/specialist/epic-lifecycle.ts, epic-readiness.ts).
use unit_ai_specialists.Common.{
  ◌≤◌, ◌≡◌, refl, true, false, none, some, List, [], ◌∷◌, Memᴰ, any, All,
}
use unit_ai_specialists.Common.Sorting.{sort_by, insert_by}
use unit_ai_specialists.Job.{SupervisorStatus, is_active, done}
use unit_ai_specialists.Epic.Lifecycle.{resolving, merge_ready}
use unit_ai_specialists.Epic.Readiness.Verdict.{pass}
use unit_ai_specialists.Epic.Readiness.Verdict
use unit_ai_specialists.Epic.Readiness.Chains.{
  EvaluatorJob, evaluate_chain_readiness, active_job, gives_verdict, verdict_of, passed, Alive,
}
use unit_ai_specialists.Epic.Readiness.Chains.Soundness.{evaluate_chain_readiness_passed}
use unit_ai_specialists.Epic.Readiness.Derive.{
  PrepReadinessSummary, ChainInput, EpicReadinessSummary, evaluate_epic_readiness_summary,
}
use unit_ai_specialists.Epic.Readiness.Derive.Laws.{next_merge_ready}

abbrev all_alive : Alive
all_alive pid started = true

abbrev executor : EvaluatorJob
executor = record {
  id = "j1";
  specialist = "executor";
  status = done;
  pid = none;
  started_at_ms = 10;
  result_text = none;
}

abbrev reviewer : EvaluatorJob
reviewer = record {
  id = "j2";
  specialist = "reviewer";
  status = done;
  pid = none;
  started_at_ms = 20;
  result_text = some "## Compliance\n- Verdict: **PASS**";
}

abbrev reviewed : List EvaluatorJob
reviewed = reviewer ∷ executor ∷ []

reviewed_passes : (evaluate_chain_readiness "c1" none all_alive reviewed).state ≡ passed
unfolding evaluate_chain_readiness Verdict.parse_reviewer_verdict sort_by insert_by
reviewed_passes = refl

evaluate_chain_readiness_passed_example :
    (any active_job reviewed ≡ false)
    × ((latest : EvaluatorJob) × (gives_verdict latest ≡ true)
        × (verdict_of latest ≡ pass)
        × Memᴰ latest reviewed
        × All (λ j. gives_verdict j ≡ true → j.started_at_ms ≤ latest.started_at_ms) reviewed)
evaluate_chain_readiness_passed_example =
    evaluate_chain_readiness_passed all_alive "c1" none reviewed reviewed_passes

abbrev idle : PrepReadinessSummary
idle = record { total = 1; done = 1; running = 0; failed = 0; blocker_job_ids = [] }

abbrev inputs : List ChainInput
inputs = record { chain_id = "c1"; chain_root_bead_id = none; jobs = reviewed } ∷ []

abbrev summary : EpicReadinessSummary
summary = evaluate_epic_readiness_summary all_alive "e1" resolving [] inputs

summary_ready : summary.next_state ≡ merge_ready
unfolding evaluate_epic_readiness_summary evaluate_chain_readiness Verdict.parse_reviewer_verdict
    sort_by insert_by
summary_ready = refl

next_merge_ready_example :
    (any (λ (j : SupervisorStatus). is_active j.status) [] ≡ false)
    × All (λ (i : ChainInput). any active_job i.jobs ≡ false) inputs
next_merge_ready_example = next_merge_ready all_alive "e1" resolving [] inputs summary_ready
