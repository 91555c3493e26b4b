-- ===== src/Epic/Readiness/Derive/Laws.antt =====
-- What the derived readiness and the blockers say (src/specialist/epic-readiness.ts).
use unit_ai_specialists.Common.{
  suc, ◌+◌, ◌≡◌, refl, ap, ◌↔◌, ◌⊎◌, true, false, List, [], ◌∷◌, ◌++◌, String, arith, any, all,
  filter, length, map, All, length-append,
}
use unit_ai_specialists.Job.{SupervisorStatus, is_active}
use unit_ai_specialists.Epic.Lifecycle.{EpicState}
use unit_ai_specialists.Epic.Readiness.Chains.{
  Alive, passed, active_job, ChainReadinessSummary, evaluate_chain_readiness,
}
use unit_ai_specialists.Epic.Readiness.Chains.Soundness.{evaluate_chain_readiness_passed}
use unit_ai_specialists.Epic.Readiness.Derive.{
  EpicReadinessState, PrepReadinessSummary, is_pending, is_blocked, is_failed, is_passed, is_error,
  derive_epic_readiness_state, derive_epic_next_state, evaluate_epic_readiness_summary,
  evaluate_prep_readiness, hinders, prep, chain, ChainInput, EpicReadinessSummary,
}

all_passed_iff :
    (chains : List ChainReadinessSummary)
    → (all is_passed chains ≡ true) ↔ (
        (any is_pending chains ≡ false)
        × (any is_failed chains ≡ false)
        × (any is_blocked chains ≡ false))
all_passed_iff [] = ground arith
all_passed_iff (c ∷ cs) = ground (arith, all_passed_iff cs)

-- An epic is merge_ready exactly when no prep job runs or failed and every chain passed; so the
-- last branch of the derivation is never taken.
pub merge_ready_iff :
    (p : PrepReadinessSummary) (chains : List ChainReadinessSummary)
    → (derive_epic_readiness_state p chains ≡ EpicReadinessState.merge_ready)
      ↔ ((p.running ≡ 0) × (p.failed ≡ 0) × (all is_passed chains ≡ true))
unfolding derive_epic_readiness_state
merge_ready_iff p chains = ground (arith, all_passed_iff chains)

hinders_iff :
    (chains : List ChainReadinessSummary)
    → (length (filter hinders chains) ≡ 0) ↔ (all is_passed chains ≡ true)
hinders_iff [] = ground arith
hinders_iff (c ∷ cs) = ground (arith, hinders_iff cs)

length-map {ℓ κ} :
    {A : Type ℓ} {B : Type κ} (f : A → B) (xs : List A) → length (map f xs) ≡ length xs
length-map f [] = refl
length-map f (x ∷ xs) = ap suc (length-map f xs)

length-eq-zero {ℓ} : {A : Type ℓ} (xs : List A) → (xs ≡ []) ↔ (length xs ≡ 0)
length-eq-zero [] = (λ h. refl, λ h. refl)
length-eq-zero (x ∷ xs) = (λ h. absurd (cc), λ h. absurd (omega arith))

length-blockers :
    (jobs : List SupervisorStatus) (chains : List ChainReadinessSummary)
    → let p = evaluate_prep_readiness jobs in
      length (map prep p.blocker_job_ids ++ map (λ c. chain c.chain_id) (filter hinders chains))
      ≡ p.running + p.failed + length (filter hinders chains)
unfolding evaluate_prep_readiness
length-blockers jobs chains = omega (
  arith,
  length-append (map prep (evaluate_prep_readiness jobs).blocker_job_ids)
      (map (λ c. chain c.chain_id) (filter hinders chains)),
  length-map prep (evaluate_prep_readiness jobs).blocker_job_ids,
  length-map (λ (j : SupervisorStatus). j.id)
      (filter (λ j. is_active j.status) jobs ++ filter (λ j. is_error j.status) jobs),
  length-append (filter (λ (j : SupervisorStatus). is_active j.status) jobs)
      (filter (λ j. is_error j.status) jobs),
  length-map (λ (c : ChainReadinessSummary). chain c.chain_id) (filter hinders chains),
)

next_state_merge_ready :
    (s : EpicState) (r : EpicReadinessState)
    → derive_epic_next_state s r ≡ EpicState.merge_ready
    → r ≡ EpicReadinessState.merge_ready
unfolding derive_epic_next_state
next_state_merge_ready s r h = ground arith

none_active :
    (jobs : List SupervisorStatus)
    → (evaluate_prep_readiness jobs).running ≡ 0
    → any (λ j. is_active j.status) jobs ≡ false
unfolding evaluate_prep_readiness
none_active [] h = refl
none_active (j ∷ js) h = ground (arith, none_active js)

-- A merged or an abandoned epic keeps its stored state, whatever its jobs say.
pub closed_kept :
    (s : EpicState) (r : EpicReadinessState)
    → (s ≡ EpicState.merged) ⊎ (s ≡ EpicState.abandoned)
    → derive_epic_next_state s r ≡ s
unfolding derive_epic_next_state
closed_kept s r h = ground arith

module _ (alive : Alive) where
  abbrev judge : ChainInput → ChainReadinessSummary
  judge c = evaluate_chain_readiness c.chain_id c.chain_root_bead_id alive c.jobs

  is_passed-state : (c : ChainReadinessSummary) → is_passed c ≡ true → c.state ≡ passed
  is_passed-state c h = ground arith

  all_passed_idle :
      (inputs : List ChainInput)
      → all is_passed (map judge inputs) ≡ true
      → All (λ i. any active_job i.jobs ≡ false) inputs
  all_passed_idle [] h = tt
  all_passed_idle (c ∷ cs) h = (
    (evaluate_chain_readiness_passed alive c.chain_id c.chain_root_bead_id c.jobs
        (is_passed-state (judge c) (ground arith))).0,
    all_passed_idle cs (ground arith),
  )

  module _ (epic_id : String) (persisted : EpicState) (jobs : List SupervisorStatus)
      (inputs : List ChainInput) where
    abbrev verdict : EpicReadinessSummary
    verdict = evaluate_epic_readiness_summary alive epic_id persisted jobs inputs

    -- The summary lists a blocker exactly when the epic is not merge_ready.
    pub blockers_iff :
        (verdict.blockers ≡ []) ↔ (verdict.readiness_state ≡ EpicReadinessState.merge_ready)
    unfolding evaluate_epic_readiness_summary
    blockers_iff =
        let p = evaluate_prep_readiness jobs in
        let cs = map judge inputs in
        let counted = length-blockers jobs cs in
        (
          λ h.
              let none_left = ap length h in
              (merge_ready_iff p cs).1 (
                omega (arith, counted, none_left),
                omega (arith, counted, none_left),
                (hinders_iff cs).0 (omega (arith, counted, none_left)),
              ),
          λ h.
              let (r, f, a) = (merge_ready_iff p cs).0 h in
              (length-eq-zero _).1 (omega (arith, counted, r, f, (hinders_iff cs).1 a)),
        )

    -- The stored state becomes merge_ready only when no prep job is active and no job of any chain
    -- is active.
    pub next_merge_ready :
        verdict.next_state ≡ EpicState.merge_ready
        → (any (λ j. is_active j.status) jobs ≡ false)
          × All (λ i. any active_job i.jobs ≡ false) inputs
    unfolding evaluate_epic_readiness_summary
    next_merge_ready h =
        let (r, f, a) =
          (merge_ready_iff (evaluate_prep_readiness jobs) (map judge inputs)).0
            (next_state_merge_ready persisted _ h) in
        (none_active jobs r, all_passed_idle inputs a)
