-- ===== src/Epic/Lifecycle/Merge.antt =====
-- Readiness to merge by live chains, src/specialist/epic-lifecycle.ts.
use unit_ai_specialists.Common.{◌≡◌, refl, ◌↔◌, true, false, List, [], ◌∷◌, arith, any, map, filter}
use unit_ai_specialists.Epic.Lifecycle.{
  EpicReadinessInput, evaluate_epic_merge_readiness, ChainStatus, is_empty, blocked_by,
}

is_empty-map-filter :
    (cs : List ChainStatus)
    → (is_empty (map (λ c. c.chain_id) (filter (λ c. c.has_running_job) cs)) ≡ true)
      ↔ (any (λ c. c.has_running_job) cs ≡ false)
is_empty-map-filter [] = (λ h. refl, λ h. refl)
is_empty-map-filter (c ∷ cs) = ground (arith, is_empty-map-filter cs)

-- An epic is ready exactly when no chain has a running job, whatever its stored status; while it is
-- not, the summary names the chains that block it.
pub merge_readiness_iff :
    (input : EpicReadinessInput)
    → let r = evaluate_epic_merge_readiness input in
      ((r.is_ready ≡ true) ↔ (any (λ c. c.has_running_job) input.chain_statuses ≡ false))
      × (r.is_ready ≡ false → r.summary ≡ blocked_by r.blocking_chains)
unfolding evaluate_epic_merge_readiness
merge_readiness_iff input = ground (arith, is_empty-map-filter input.chain_statuses)
