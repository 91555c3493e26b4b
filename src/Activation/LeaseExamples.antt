-- ===== src/Activation/LeaseExamples.antt =====
-- Runs of the lease, its admission and its reconciliation at concrete inputs
-- (src/activation/workspace-lease.ts, workspace-reconcile.ts).
use unit_ai_specialists.Common.{
  ℕ, ◌==◌, ◌≡◌, ◌≢◌, refl, sym, ◌∙◌, ◌↔◌, ◌⊎◌, Bool, true, false, none, some, [], ◌∷◌, String,
  arith, eq_iff, if◌then◌else◌,
}
use unit_ai_specialists.Common.Dict.{get, set, delete}
use unit_ai_specialists.Activation.Lease.{
  WorkspaceIdentity, WorkspaceLease, unreadable, lease_file, Files, free, held, uncertain,
  holder_process_gone, LeaseHost, AcquireRequest, LeaseError, returned, thrown, inspect, acquire,
}
use unit_ai_specialists.Activation.Lease.Safety.{Granted, acquire_returned, second_publish_loses}
use unit_ai_specialists.Activation.Lease.Admission.{
  is_mutating_tool, allows, admit_tool_call, admit_coordinator_tool_call, admission_iff,
}
use unit_ai_specialists.Activation.Reconcile.{
  ReconciliationRequest, safe_free, superseded, Store, reconcile,
}
use unit_ai_specialists.Activation.Reconcile.Laws.{Licensed, reconcile_files, unreadable_superseded}

abbrev tree : WorkspaceIdentity
tree = record { repository_root = "/r"; worktree_path = "/r/wt"; git_common_dir = none }

-- A machine where the processes 7 and 8 run.
abbrev machine : ℕ → Bool → LeaseHost
machine pid sees = record {
  workspace_key = λ ws. ws.worktree_path;
  lease_path = λ ws. ws.worktree_path;
  can_verify = sees;
  start_ticks = λ p. if p == 7 then some 70 else if p == 8 then some 80 else none;
  self_pid = pid;
  now = 1000;
}

abbrev host : LeaseHost
host = machine 7 true

abbrev asks : String → AcquireRequest
asks activation = record {
  workspace = tree;
  activation_id = activation;
  attempt_id = "att:1";
  specialist = some "executor";
}

abbrev lease : ℕ → WorkspaceLease
lease pid = record {
  workspace_key = "/r/wt";
  worktree_path = "/r/wt";
  activation_id = "act:a";
  attempt_id = "att:1";
  specialist = some "executor";
  holder = record { pid = pid; start_ticks = 70 };
  acquired_at_ms = 1000;
}

abbrev taken : Files
taken = ("/r/wt", lease_file (lease 7)) ∷ []

is_free : inspect host [] tree ≡ free
unfolding inspect get
is_free = refl

is_held : inspect host taken tree ≡ held (lease 7)
unfolding inspect get
is_held = refl

granted : acquire host (asks "act:a") [] [] ≡ returned (lease 7) taken
unfolding acquire inspect get set
granted = refl

other_owner : (lease 7).activation_id ≢ "act:b"
other_owner e = let clash : false ≡ true = (eq_iff "act:a" "act:b").1 e in ground arith

acquire_returned_example : Granted host (asks "act:a") [] (inspect host [] tree) (lease 7) taken
acquire_returned_example = acquire_returned host (asks "act:a") [] [] taken (lease 7) granted

rival_free : inspect (machine 8 true) [] tree ≡ free
unfolding inspect get
rival_free = refl

second_publish_loses_example :
    ((e : LeaseError) × (acquire (machine 8 true) (asks "act:b") [] taken ≡ thrown e taken))
    × (get "/r/wt" taken ≡ some (lease_file (lease 7)))
second_publish_loses_example =
    second_publish_loses host (asks "act:a") (asks "act:b") [] [] taken (lease 7) (machine 8 true)
      refl granted rival_free

held_by_owner : (l : WorkspaceLease) → held (lease 7) ≡ held l → l.activation_id ≡ "act:a"
held_by_owner l h = ground arith

not_owner : (l : WorkspaceLease) → inspect host taken tree ≡ held l → l.activation_id ≢ "act:b"
not_owner l h e =
    let named : l.activation_id ≡ "act:a" = held_by_owner l (sym is_held ∙ h) in
    let clash : (lease 7).activation_id ≡ "act:b" = sym named ∙ e in other_owner clash

edits : is_mutating_tool "edit" ≡ true
unfolding is_mutating_tool
edits = refl

admission_iff_example :
    ((allows (admit_tool_call host taken "edit" tree "act:a") ≡ true)
      ↔ ((l : WorkspaceLease) × (inspect host taken tree ≡ held l) × (l.activation_id ≡ "act:a")))
    × ((allows (admit_coordinator_tool_call host taken "edit" tree) ≡ true)
        ↔ (inspect host taken tree ≡ free))
admission_iff_example = admission_iff host taken tree "edit" "act:a" edits

abbrev proposal : ReconciliationRequest
proposal = record {
  outcome = safe_free;
  decided_by = "operator";
  basis = "process gone" ∷ [];
  superseded_by = none;
  note = none;
}

-- The holder is a process that does not run.
abbrev dead : Files
dead = ("/r/wt", lease_file (lease 9)) ∷ []

abbrev store : Files → Store
store fs = record { files = fs; logs = [] }

is_gone : inspect host dead tree ≡ uncertain (some (lease 9)) holder_process_gone
unfolding inspect get
is_gone = refl

has_basis : proposal.basis ≢ []
has_basis h = ground (arith, h)

reconcile_files_example :
    ((reconcile host tree proposal (store dead)).2.files ≡ dead)
    ⊎ (((reconcile host tree proposal (store dead)).2.files ≡ delete "/r/wt" dead)
        × Licensed host tree proposal (inspect host dead tree)
        × ((reconcile host tree proposal (store dead)).0.applied ≡ true))
reconcile_files_example = reconcile_files host tree proposal (store dead)

abbrev successor : ReconciliationRequest
successor = record proposal { outcome = superseded; superseded_by = some "act:c" }

abbrev torn : Files
torn = ("/r/wt", unreadable) ∷ []

unreadable_superseded_example :
    inspect (machine 7 false) (reconcile (machine 7 false) tree successor (store torn)).2.files tree
    ≡ free
unfolding get
unreadable_superseded_example =
    unreadable_superseded (machine 7 false) tree successor (store torn) refl has_basis refl refl
