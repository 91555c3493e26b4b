-- ===== src/Epic/Lifecycle/Paths.antt =====
-- The transition table of src/specialist/epic-lifecycle.ts.
use unit_ai_specialists.Common.{◌≡◌, refl, ◌↔◌, ◌⊎◌, true, arith}
use unit_ai_specialists.Epic.Lifecycle.{
  EpicState, opened, resolving, merge_ready, merged, failed, abandoned, is_epic_terminal_state,
  can_transition_epic_state, entered, invalid_transition, transition_epic_state,
}

-- A transition is entered exactly when the table has it, and then the state entered is the
-- one that was asked for.
pub transition_iff :
    (s t u : EpicState)
    → (transition_epic_state s t ≡ entered u) ↔ ((can_transition_epic_state s t ≡ true) × (t ≡ u))
unfolding transition_epic_state
transition_iff s t u = ground arith

-- Merged and abandoned epics move nowhere.
pub closed_absorbs :
    (s t : EpicState)
    → (s ≡ merged) ⊎ (s ≡ abandoned)
    → transition_epic_state s t ≡ invalid_transition s t
unfolding transition_epic_state
closed_absorbs s t h = ground arith

-- A state is terminal exactly when it has no way out but to be abandoned.
pub terminal_iff :
    (s : EpicState)
    → (is_epic_terminal_state s ≡ true)
      ↔ ((t : EpicState) → can_transition_epic_state s t ≡ true → t ≡ abandoned)
unfolding can_transition_epic_state is_epic_terminal_state
terminal_iff opened = (λ h. absurd (cc), λ h. absurd (cc (h resolving refl)))
terminal_iff resolving = (λ h. absurd (cc), λ h. absurd (cc (h failed refl)))
terminal_iff merge_ready = (λ h. absurd (cc), λ h. absurd (cc (h merged refl)))
terminal_iff merged = (λ h t. ground arith, λ h. refl)
terminal_iff failed = (λ h t. ground arith, λ h. refl)
terminal_iff abandoned = (λ h t. ground arith, λ h. refl)
