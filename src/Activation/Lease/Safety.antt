-- ===== src/Activation/Lease/Safety.antt =====
-- What the lease of src/activation/workspace-lease.ts guarantees.
use unit_ai_specialists.Common.{
  ℕ, ◌≡◌, ◌≢◌, refl, ◌⊎◌, inl, inr, true, false, Option, none, some, String, str_eq, eq_iff,
  eq_refl, arith, ==_refl, Bool-cases, Option-cases,
}
use unit_ai_specialists.Common.Dict.{get, set, has, get-set, get-delete}
use unit_ai_specialists.Activation.Lease.{
  WorkspaceIdentity, WorkspaceLease, lease_file, Files, LeaseStatus, free, held, uncertain,
  LeaseHost, AcquireRequest, LeaseError, returned, thrown, files_of, inspect, acquire, release,
  workspace_held_by_another_writer, acquire_on, take_free, publish, judge_file, judge_ticks,
  release_on, no_reuse_guard,
}

module _ (host : LeaseHost) where
  -- What a granted lease tells, by the status that was read.
  abbrev pub Granted : AcquireRequest → Files → LeaseStatus → WorkspaceLease → Files → Type 0
  Granted req other status l after =
      ((status ≡ free) × (has (host.lease_path req.workspace) other ≡ false)
        ⊎ ((old : WorkspaceLease) × (status ≡ held old) × (old.activation_id ≡ req.activation_id)))
      × (l.activation_id ≡ req.activation_id)
      × (l.attempt_id ≡ req.attempt_id)
      × (after ≡ set (host.lease_path req.workspace) (lease_file l) other)

  acquire_on-Granted :
      (req : AcquireRequest) (other after : Files) (status : LeaseStatus) (l : WorkspaceLease)
      → acquire_on host req other status ≡ returned l after
      → Granted req other status l after
  unfolding acquire_on
  acquire_on-Granted req other after free l h =
      elim (Option-cases (host.start_ticks host.self_pid)) [
        | inl e ↦ absurd (ground (arith, e))
        | inr (t, e) ↦ elim (Bool-cases (has (host.lease_path req.workspace) other)) [
          | inl o ↦ absurd (ground (arith, e, o))
          | inr o ↦
              (inl (refl, o), ground (arith, e, o), ground (arith, e, o), ground (arith, e, o))
        ]
      ]
  acquire_on-Granted req other after (held old) l h =
      elim (Bool-cases (str_eq old.activation_id req.activation_id)) [
        | inl e ↦
            let same = (eq_iff old.activation_id req.activation_id).0 e in
            (inr (old, refl, same), ground (arith, e, same), ground (arith, e), ground (arith, e))
        | inr e ↦ absurd (ground (arith, e))
      ]
  acquire_on-Granted req other after (uncertain l' why) l h = absurd (ground arith)

  -- A lease is granted only where the inspection found none, and then the path was still empty when
  -- the record was published, or to the activation that already held it. What is written is the
  -- record returned, and nothing is written at any other path.
  pub acquire_returned :
      (req : AcquireRequest) (seen other after : Files) (l : WorkspaceLease)
      → acquire host req seen other ≡ returned l after
      → Granted req other (inspect host seen req.workspace) l after
  unfolding acquire
  acquire_returned req seen other after l h =
      acquire_on-Granted req other after (inspect host seen req.workspace) l h

  -- A refused acquisition writes nothing.
  pub acquire_thrown :
      (req : AcquireRequest) (seen other after : Files) (e : LeaseError)
      → acquire host req seen other ≡ thrown e after
      → after ≡ other
  unfolding acquire
  acquire_thrown req seen other after e h = ground arith

  -- What is read at a path where a record was just written.
  get-set_self :
      (k : String) (l : WorkspaceLease) (fs : Files)
      → get k (set k (lease_file l) fs) ≡ some (lease_file l)
  get-set_self k l fs = rw (get-set k k (lease_file l) fs, eq_refl k)

  take_free-returned :
      (req : AcquireRequest) (other after : Files) (o : Option ℕ) (l : WorkspaceLease)
      → take_free host req other o ≡ returned l after
      → (t : ℕ) × (o ≡ some t)
        × (l.holder ≡ record { pid = host.self_pid; start_ticks = t })
        × (after ≡ set (host.lease_path req.workspace) (lease_file l) other)
  unfolding take_free
  take_free-returned req other after none l h = absurd (ground arith)
  take_free-returned req other after (some t) l h =
      elim (Bool-cases (has (host.lease_path req.workspace) other)) [
        | inl o ↦ absurd (ground (arith, o))
        | inr o ↦ (t, refl, ground (arith, o), ground (arith, o))
      ]

  -- The probe on a readable record whose holder runs as recorded.
  judge_file-live :
      (l : WorkspaceLease)
      → host.can_verify ≡ true
      → host.start_ticks l.holder.pid ≡ some l.holder.start_ticks
      → judge_file host (some (lease_file l)) ≡ held l
  unfolding judge_file
  judge_file-live l v t = rw (v, t, judge_ticks) (rw (==_refl l.holder.start_ticks))

  -- On a host that can verify processes, a lease that is granted on a workspace seen free is read
  -- back as held, by that very lease.
  pub acquire-inspect :
      (req : AcquireRequest) (seen other after : Files) (l : WorkspaceLease)
      → host.can_verify ≡ true
      → inspect host seen req.workspace ≡ free
      → acquire host req seen other ≡ returned l after
      → inspect host after req.workspace ≡ held l
  unfolding acquire
  acquire-inspect req seen other after l v f h =
      let granted : take_free host req other (host.start_ticks host.self_pid) ≡ returned l after =
        (rw f at h) in
      let (t, ticks, holder, written) =
        take_free-returned req other after (host.start_ticks host.self_pid) l granted in
      rw (written, get-set_self (host.lease_path req.workspace) l other)
        (judge_file-live l v (rw holder ticks))

  -- An acquirer that sees the workspace held by another activation is refused, whatever was
  -- written since, and no file changes.
  pub held_excludes :
      (req : AcquireRequest) (seen other : Files) (l : WorkspaceLease)
      → inspect host seen req.workspace ≡ held l
      → l.activation_id ≢ req.activation_id
      → acquire host req seen other ≡ thrown (workspace_held_by_another_writer (held l)) other
  unfolding acquire
  held_excludes req seen other l e d =
      rw e (ground (arith, eq_iff l.activation_id req.activation_id))

  -- When an acquisition was granted, a second acquirer of the same record, which had seen the
  -- workspace free before, is refused as it comes to write, and the record of the first stays.
  pub second_publish_loses :
      (first second : AcquireRequest) (seen other mid : Files) (l : WorkspaceLease)
      (rival : LeaseHost)
      → rival.lease_path second.workspace ≡ host.lease_path first.workspace
      → acquire host first seen other ≡ returned l mid
      → inspect rival seen second.workspace ≡ free
      → ((e : LeaseError) × (acquire rival second seen mid ≡ thrown e mid))
        × (get (host.lease_path first.workspace) mid ≡ some (lease_file l))
  unfolding acquire
  second_publish_loses first second seen other mid l rival p h g =
      let kept : get (host.lease_path first.workspace) mid ≡ some (lease_file l) =
        rw (acquire_returned first seen other mid l h).3 (get-set_self _ l other) in
      (
        elim (Option-cases (rival.start_ticks rival.self_pid)) [
          | inl e ↦ (no_reuse_guard, rw (g, acquire_on) (rw (e, take_free)))
          | inr (t, e) ↦ (
            workspace_held_by_another_writer (inspect rival mid second.workspace),
            rw (g, acquire_on) (rw (e, take_free) (rw (p, kept, publish))),
          )
        ],
        kept,
      )

  -- Releasing by the holder frees the workspace.
  pub release-inspect :
      (ws : WorkspaceIdentity) (activation : String) (fs : Files) (l : WorkspaceLease)
      → inspect host fs ws ≡ held l
      → l.activation_id ≡ activation
      → inspect host (files_of (release host ws activation fs)) ws ≡ free
  unfolding release
  release-inspect ws activation fs l e s =
      rw (e, release_on, s, eq_refl activation, get-delete, eq_refl) (unfold judge_file in refl)

  release_on_keeps :
      (ws : WorkspaceIdentity) (activation : String) (fs : Files) (status : LeaseStatus)
      → ((l : WorkspaceLease) → status ≡ held l → l.activation_id ≢ activation)
      → files_of (release_on host ws activation fs status) ≡ fs
  unfolding release_on
  release_on_keeps ws activation fs free n = refl
  release_on_keeps ws activation fs (uncertain l why) n = refl
  release_on_keeps ws activation fs (held l) n =
      ground (arith, eq_iff l.activation_id activation, n l refl)

  -- Nobody but the live holder changes anything by a release: on a free or an uncertain workspace,
  -- and by another activation, the files stay.
  pub release_keeps :
      (ws : WorkspaceIdentity) (activation : String) (fs : Files)
      → ((l : WorkspaceLease) → inspect host fs ws ≡ held l → l.activation_id ≢ activation)
      → files_of (release host ws activation fs) ≡ fs
  unfolding release
  release_keeps ws activation fs n = release_on_keeps ws activation fs (inspect host fs ws) n
