-- ===== src/Activation/Lease/Admission.antt =====
-- The admission of tool calls, src/activation/workspace-lease.ts. A verdict keeps what the text of
-- its reason is made from.
use unit_ai_specialists.Common.{
  ◌≡◌, refl, ◌↔◌, Bool, true, false, not, List, [], ◌∷◌, map, String, str_eq, eq_iff, arith, any,
  if◌then◌else◌,
}
use unit_ai_specialists.Common.Text.{codes, lower, trim, same_codes}
use unit_ai_specialists.Activation.Lease.{
  WorkspaceIdentity, WorkspaceLease, Files, LeaseStatus, free, held, uncertain, LeaseHost, inspect,
}

abbrev non_mutating_tools : List String
non_mutating_tools =
    "read" ∷ "grep" ∷ "glob" ∷ "ls" ∷ "list" ∷ "search" ∷ "view" ∷ "todowrite" ∷ "websearch"
    ∷ "webfetch" ∷ []

-- `toLowerCase` beyond ASCII yields no letter of these names.
unfoldable pub is_mutating_tool : String → Bool
unfolding trim lower
is_mutating_tool tool =
    let name = map lower (trim (codes tool)) in
    not (any (λ t. same_codes (codes t) name) non_mutating_tools)

pub data Denial : Type 0 where
  held_by lease_uncertain not_leased : LeaseStatus → Denial

pub data AdmissionVerdict : Type 0 where
  allow : AdmissionVerdict
  deny : Denial → AdmissionVerdict

abbrev pub allows : AdmissionVerdict → Bool
allows allow = true
allows (deny _) = false

coordinator_verdict : LeaseStatus → AdmissionVerdict
coordinator_verdict free = allow
coordinator_verdict (held l) = deny (held_by (held l))
coordinator_verdict (uncertain l why) = deny (lease_uncertain (uncertain l why))

specialist_verdict : String → LeaseStatus → AdmissionVerdict
specialist_verdict activation free = deny (not_leased free)
specialist_verdict activation (held l) =
    if str_eq l.activation_id activation then allow else deny (held_by (held l))
specialist_verdict activation (uncertain l why) = deny (lease_uncertain (uncertain l why))

module _ (host : LeaseHost) (fs : Files) (tool : String) (ws : WorkspaceIdentity) where
  unfoldable pub admit_coordinator_tool_call : AdmissionVerdict
  unfolding coordinator_verdict
  admit_coordinator_tool_call =
      if not (is_mutating_tool tool) then allow else coordinator_verdict (inspect host fs ws)

  unfoldable pub admit_tool_call : String → AdmissionVerdict
  unfolding specialist_verdict
  admit_tool_call activation =
      if not (is_mutating_tool tool)
      then allow
      else specialist_verdict activation (inspect host fs ws)

specialist_verdict_iff :
    (activation : String) (status : LeaseStatus)
    → (allows (specialist_verdict activation status) ≡ true)
      ↔ ((l : WorkspaceLease) × (status ≡ held l) × (l.activation_id ≡ activation))
unfolding specialist_verdict
specialist_verdict_iff activation free = (λ h. absurd (cc), λ h. absurd (cc (h.1)))
specialist_verdict_iff activation (held l) = (
  λ h. (l, refl, ground (arith, eq_iff l.activation_id activation)),
  λ h. let (k, same, owner) = h in ground (arith, same, owner, eq_iff l.activation_id activation),
)
specialist_verdict_iff activation (uncertain l why) = (λ h. absurd (cc), λ h. absurd (cc (h.1)))

coordinator_verdict_iff :
    (status : LeaseStatus) → (allows (coordinator_verdict status) ≡ true) ↔ (status ≡ free)
unfolding coordinator_verdict
coordinator_verdict_iff status = ground arith

module _ (host : LeaseHost) (fs : Files) (ws : WorkspaceIdentity) (tool : String) where
  -- A tool that may mutate is admitted for an activation exactly when that activation is the live
  -- holder of the workspace, and for the coordinator exactly when the workspace is free.
  pub admission_iff :
      (activation : String)
      → is_mutating_tool tool ≡ true
      → ((allows (admit_tool_call host fs tool ws activation) ≡ true)
          ↔ ((l : WorkspaceLease) × (inspect host fs ws ≡ held l) × (l.activation_id ≡ activation)))
        × ((allows (admit_coordinator_tool_call host fs tool ws) ≡ true)
            ↔ (inspect host fs ws ≡ free))
  unfolding admit_tool_call admit_coordinator_tool_call
  admission_iff activation m = rw m (
    specialist_verdict_iff activation (inspect host fs ws),
    coordinator_verdict_iff (inspect host fs ws),
  )

tool_tests :
    (is_mutating_tool " Read " ≡ false)
    × (is_mutating_tool "edit" ≡ true)
    × (is_mutating_tool "websearch2" ≡ true)
unfolding is_mutating_tool
tool_tests = (refl, refl, refl)
