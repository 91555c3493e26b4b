-- ===== src/Epic/Readiness/Chains/Soundness.antt =====
-- What a chain's readiness says of its jobs (src/specialist/epic-readiness.ts).
use unit_ai_specialists.Common.{
  ℕ, ◌≤◌, ◌≡◌, refl, ◌∙◌, sym, inl, inr, Bool, true, false, Option, none, some, List, [], ◌∷◌,
  String, arith, Memᴰ, any, filter, get_last?, All, Bool-cases, All-get_last?, All-Memᴰ,
  All-filter_self,
}
use unit_ai_specialists.Common.Sorting.{
  sort_by, SortedBy-sort_by, SortedBy-filter, SortedBy-get_last?, any-sort_by, All-of_filter,
  All-of_sort_by, All-filter, All-sort_by,
}
use unit_ai_specialists.Epic.Readiness.Verdict.{pass}
use unit_ai_specialists.Epic.Readiness.Chains.{
  EvaluatorJob, passed, Alive, active_job, dead_job, gives_verdict, verdict_of, nonempty,
  judge_latest, judge_ordered, evaluate_chain_readiness,
}

abbrev started : EvaluatorJob → ℕ
started j = j.started_at_ms

nonempty-filter :
    (p : EvaluatorJob → Bool) (js : List EvaluatorJob) → nonempty (filter p js) ≡ any p js
nonempty-filter p [] = refl
nonempty-filter p (j ∷ js) = ground (arith, nonempty-filter p js)

module _ (alive : Alive) (chain_id : String) (root : Option String) where
  judge_latest_passed :
      (ordered : List EvaluatorJob) (o : Option EvaluatorJob)
      → (judge_latest chain_id root ordered o).state ≡ passed
      → (latest : EvaluatorJob) × (o ≡ some latest) × (verdict_of latest ≡ pass)
  unfolding judge_latest
  judge_latest_passed ordered none h = absurd (ground arith)
  judge_latest_passed ordered (some latest) h = (latest, refl, ground arith)

  judge_ordered_passed :
      (ordered : List EvaluatorJob)
      → (judge_ordered chain_id root alive ordered).state ≡ passed
      → (any active_job ordered ≡ false)
        × ((latest : EvaluatorJob) × (get_last? (filter gives_verdict ordered) ≡ some latest)
            × (verdict_of latest ≡ pass))
  unfolding judge_ordered
  judge_ordered_passed ordered h =
      elim (Bool-cases (nonempty (filter (dead_job alive) (filter active_job ordered)))) [
        | inl d ↦ absurd (ground (arith, d))
        | inr d ↦ elim (Bool-cases (nonempty (filter active_job ordered))) [
          | inl l ↦ absurd (ground (arith, d, l))
          | inr l ↦ (
            sym (nonempty-filter active_job ordered) ∙ l,
            judge_latest_passed ordered (get_last? (filter gives_verdict ordered))
                (rw (d, l, judge_ordered) at h),
          )
        ]
      ]

  -- A chain passes only when none of its jobs is active and a done reviewer among them says PASS
  -- that no other reviewer's verdict is later than.
  pub evaluate_chain_readiness_passed :
      (jobs : List EvaluatorJob)
      → (evaluate_chain_readiness chain_id root alive jobs).state ≡ passed
      → (any active_job jobs ≡ false)
        × ((latest : EvaluatorJob) × (gives_verdict latest ≡ true)
            × (verdict_of latest ≡ pass)
            × Memᴰ latest jobs
            × All (λ j. gives_verdict j ≡ true → started j ≤ started latest) jobs)
  unfolding evaluate_chain_readiness
  evaluate_chain_readiness_passed [] h = absurd (ground arith)
  evaluate_chain_readiness_passed (j ∷ js) h =
      let ordered = sort_by started (j ∷ js) in
      let (idle, found) = judge_ordered_passed ordered h in
      let (latest, last, says) = found in
      (
        sym (any-sort_by started active_job (j ∷ js)) ∙ idle,
        (
          latest,
          All-get_last? _ _ latest (All-filter_self gives_verdict ordered) last,
          says,
          All-get_last? (λ k. Memᴰ k (j ∷ js)) _ latest
              (All-filter _ gives_verdict ordered
                (All-sort_by started _ (j ∷ js) (All-Memᴰ (j ∷ js))))
              last,
          All-of_sort_by started _ (j ∷ js) (
              All-of_filter _ gives_verdict ordered (
                SortedBy-get_last? started _ latest
                  (SortedBy-filter started gives_verdict ordered
                    (SortedBy-sort_by started (j ∷ js)))
                  last)),
        ),
      )
