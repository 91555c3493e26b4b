-- ===== src/Activation/Reconcile/Laws.antt =====
-- What a reconciliation may and may not do (src/activation/workspace-reconcile.ts).
use unit_ai_specialists.Common.{
  ◌≡◌, ◌≢◌, refl, ◌⊎◌, inl, inr, true, false, not, Option, none, some, List, [], ◌∷◌, ◌++◌, String,
  arith, truthy, eq_refl, str_eq, eq_iff, ◌&&◌, if◌then◌else◌, Bool-cases,
}
use unit_ai_specialists.Common.Dict.{get, delete, get-set, get-delete}
use unit_ai_specialists.Activation.Lease.{
  WorkspaceIdentity, WorkspaceLease, Files, LeaseStatus, free, held, uncertain, UncertainReason,
  holder_process_gone, holder_start_mismatch, liveness_unverifiable, unreadable_record, LeaseHost,
  unreadable, lease_file, inspect,
}
use unit_ai_specialists.Activation.Reconcile.{
  safe_free, superseded, manual_attention_required, recovered_holder, ReconciliationRequest,
  permitted, Store, no_basis, is_manual, is_superseded, holder_is_live, decide, decide_uncertain,
  append_record, log_of, reconcile,
}

module _ (host : LeaseHost) (ws : WorkspaceIdentity) (req : ReconciliationRequest) where
  -- The lease is touched only from an uncertain status, on a stated basis, for an outcome that the
  -- reason permits and that resolves.
  abbrev pub Licensed : LeaseStatus → Type 0
  Licensed status =
      (l : Option WorkspaceLease) × (why : UncertainReason) × (status ≡ uncertain l why)
      × (req.basis ≢ [])
      × (permitted why req.outcome ≡ true)
      × (req.outcome ≢ manual_attention_required)
      × (req.outcome ≡ superseded → truthy req.superseded_by ≡ true)

  decide_uncertain_files :
      (l : Option WorkspaceLease) (why : UncertainReason) (fs : Files)
      → ((decide_uncertain host ws req l why fs).1 ≡ fs)
        ⊎ (((decide_uncertain host ws req l why fs).1 ≡ delete (host.lease_path ws) fs)
            × Licensed (uncertain l why)
            × ((decide_uncertain host ws req l why fs).0.applied ≡ true))
  unfolding decide_uncertain
  decide_uncertain_files l why fs = elim (Bool-cases (no_basis req.basis)) [
    | inl b ↦ inl (rw b refl)
    | inr b ↦ elim (Bool-cases (permitted why req.outcome)) [
      | inr p ↦ inl (rw (b, p) refl)
      | inl p ↦ elim (Bool-cases (is_superseded req.outcome && not (truthy req.superseded_by))) [
        | inl s ↦ inl (rw (b, p, s) refl)
        | inr s ↦ elim (Bool-cases (is_manual req.outcome)) [
          | inl m ↦ inl (rw (b, p, s, m) refl)
          | inr m ↦ inr (
            rw (b, p, s, m) refl,
            (
              l,
              why,
              refl,
              (λ e. ground (arith, e, b)),
              p,
              (λ e. ground (arith, e, m)),
              (λ e. ground (arith, e, s)),
            ),
            rw (b, p, s, m) refl,
          )
        ]
      ]
    ]
  ]

  decide_files :
      (status : LeaseStatus) (fs : Files)
      → ((decide host ws req status fs).1 ≡ fs)
        ⊎ (((decide host ws req status fs).1 ≡ delete (host.lease_path ws) fs)
            × Licensed status
            × ((decide host ws req status fs).0.applied ≡ true))
  unfolding decide
  decide_files free fs = inl refl
  decide_files (held l) fs = inl refl
  decide_files (uncertain l why) fs = decide_uncertain_files l why fs

  -- A reconciliation leaves every lease file as it is, or it removes the one record of this
  -- workspace; that only from an uncertain lease, on a stated basis, for an outcome that the reason
  -- permits and that resolves, with the successor named where one is asserted, and the record
  -- says that it was applied.
  pub reconcile_files :
      (s : Store)
      → ((reconcile host ws req s).2.files ≡ s.files)
        ⊎ (((reconcile host ws req s).2.files ≡ delete (host.lease_path ws) s.files)
            × Licensed (inspect host s.files ws)
            × ((reconcile host ws req s).0.applied ≡ true))
  unfolding reconcile
  reconcile_files s = decide_files (inspect host s.files ws) s.files

  -- A live holder is never evicted: the files stay, the proposal is not applied, and the record says
  -- that the holder was recovered.
  pub held_kept :
      (s : Store) (l : WorkspaceLease)
      → inspect host s.files ws ≡ held l
      → ((reconcile host ws req s).2.files ≡ s.files)
        × ((reconcile host ws req s).0.applied ≡ false)
        × ((reconcile host ws req s).0.outcome ≡ recovered_holder)
        × ((reconcile host ws req s).0.refusal_reason ≡ some holder_is_live)
  unfolding reconcile
  held_kept s l e = rw (e, decide) (refl, refl, refl, refl)

  -- Every attempt, applied or refused, adds one record at the end of this workspace's log and
  -- leaves the logs of others alone.
  pub attempts_logged :
      (s : Store) (path : String)
      → log_of (get path (reconcile host ws req s).2.logs) ≡ (
          if str_eq (host.lease_path ws) path
          then log_of (get path s.logs) ++ (reconcile host ws req s).0 ∷ []
          else log_of (get path s.logs))
  unfolding reconcile
  attempts_logged s path = elim (Bool-cases (str_eq (host.lease_path ws) path)) [
    | inl e ↦
        let same = (eq_iff (host.lease_path ws) path).0 e in
        rw (e, append_record, get-set, e) (rw same refl)
    | inr e ↦ rw (e, append_record, get-set, e) refl
  ]

  no_basis_ne : (xs : List String) → xs ≢ [] → no_basis xs ≡ false
  no_basis_ne [] n = absurd (n refl)
  no_basis_ne (x ∷ xs) n = refl

  inspect-delete : (fs : Files) → inspect host (delete (host.lease_path ws) fs) ws ≡ free
  unfolding inspect
  inspect-delete fs =
      rw (get-delete (host.lease_path ws) (host.lease_path ws) fs, eq_refl (host.lease_path ws))

  decide_uncertain-delete :
      (l : Option WorkspaceLease) (why : UncertainReason) (fs : Files)
      → req.basis ≢ []
      → permitted why req.outcome ≡ true
      → (is_superseded req.outcome && not (truthy req.superseded_by)) ≡ false
      → is_manual req.outcome ≡ false
      → (decide_uncertain host ws req l why fs).1 ≡ delete (host.lease_path ws) fs
  unfolding decide_uncertain
  decide_uncertain-delete l why fs b p s m = rw (no_basis_ne req.basis b, p, s, m) refl

  not-Licensed_unverifiable :
      (l : Option WorkspaceLease) → ¬ (Licensed (uncertain l liveness_unverifiable))
  not-Licensed_unverifiable l h =
      let (k, why, e, b, p, m, n) = h in
      let w : why ≡ liveness_unverifiable = cc in ground (arith, w, p, m)

  inspect_unverifiable :
      (s : Files) (l : WorkspaceLease)
      → host.can_verify ≡ false
      → get (host.lease_path ws) s ≡ some (lease_file l)
      → inspect host s ws ≡ uncertain (some l) liveness_unverifiable
  unfolding inspect
  inspect_unverifiable s l v g = rw (g, v) refl

  -- On a host that cannot see processes no reconciliation frees a workspace whose record can be
  -- read.
  pub unverifiable_kept :
      (s : Store) (l : WorkspaceLease)
      → host.can_verify ≡ false
      → get (host.lease_path ws) s.files ≡ some (lease_file l)
      → (reconcile host ws req s).2.files ≡ s.files
  unverifiable_kept s l v g = elim (reconcile_files s) [
    | inl same ↦ same
    | inr (gone, licence, applied) ↦
        absurd
          (not-Licensed_unverifiable (some l) (rw (inspect_unverifiable s.files l v g) at licence))
  ]

  inspect_unreadable :
      (s : Files)
      → get (host.lease_path ws) s ≡ some unreadable
      → inspect host s ws ≡ uncertain none unreadable_record
  unfolding inspect
  inspect_unreadable s g = rw g refl

  -- An unreadable record is freed by naming a successor on a stated basis, also on a host that
  -- cannot see processes.
  pub unreadable_superseded :
      (s : Store)
      → get (host.lease_path ws) s.files ≡ some unreadable
      → req.basis ≢ []
      → req.outcome ≡ superseded
      → truthy req.superseded_by ≡ true
      → inspect host (reconcile host ws req s).2.files ws ≡ free
  unfolding reconcile
  unreadable_superseded s g b o t =
      rw (inspect_unreadable s.files g, decide)
        (rw
          (decide_uncertain-delete none unreadable_record s.files b (rw o refl) (rw (o, t) refl)
            (rw o refl))
          (inspect-delete s.files))

  -- The way out of a dead holder's lease: with a stated basis, `safe_free` makes the workspace free.
  pub safe_free-inspect :
      (s : Store) (l : Option WorkspaceLease) (why : UncertainReason)
      → inspect host s.files ws ≡ uncertain l why
      → (why ≡ holder_process_gone) ⊎ (why ≡ holder_start_mismatch)
      → req.basis ≢ []
      → req.outcome ≡ safe_free
      → inspect host (reconcile host ws req s).2.files ws ≡ free
  unfolding reconcile
  safe_free-inspect s l why e w b o =
      rw (e, decide)
        (rw (decide_uncertain-delete l why s.files b (ground (arith, w, o)) (rw o refl) (rw o refl))
          (inspect-delete s.files))
